-- ===== src/Lib.antt =====
-- Verification library of the air-gapped AI gateway's command line tool (src/airgap_ai_gateway).
--
-- A configuration (configuration.py) names the platform, the models that the gateway serves and their
-- consumers. The manifests are kustomizations, which manifest.py builds and whose documents it
-- validates before anything is planned.
--
-- The tool deploys a gateway to a Kubernetes cluster in steps that an operator approves. A plan
-- builder (planning.py) renders the manifests of an overlay and lists the commands to run; the plan is
-- saved as JSON under an identifier that is a hash of its contents. A snapshot (ledger.py) records
-- what was in the cluster before. The executor (execution.py) takes the saved plan, checks what the
-- operator gives against it, and runs its actions one by one through a command runner, polling the
-- status of resources (conditions.py). From the snapshot it makes a ledger of what the run created and
-- updated, from which a rollback plan is built later. Logs and reports pass through redaction.py.
--
-- Files and code:
--   Base        the names the components share: Python's order and `sorted` (Base/Order), exceptions
--               as values (Base/Outcome), code that changes a state and may raise (Base/Exec, with
--               Base/Yields on what it returns), JSON values (Base/Json), integers (Base/Int), the
--               command runner (Base/Runner), `str.strip` and `in` (Base/Strip).
--   Models      models.py and command.py; errors.py is `Error` of Base/Outcome.
--   Safety      safety.py: ensure_mutation_is_confirmed, mutation_state.
--   Ledger      ledger.py: ResourceRef (Ledger/Ref), LedgerEntry (Ledger/Entry), PreChangeSnapshot
--               (Ledger/Snapshot), StateLedger and ledger_from_resources (Ledger/State). Proofs:
--               Ledger/Roundtrip, Ledger/Classify.
--   Planning    planning.py: PlanAction (Planning/Action), ExecutionPlan and its identifier
--               (Planning/Plan), build_execution_plan (Planning/Build), build_rollback_execution_plan
--               (Planning/Rollback), build_plan (Planning/Summary). Proofs:
--               Planning/Roundtrip, Scope, Modes, Undoable.
--   Conditions  conditions.py: the checkers (Conditions/Checks) and the polls (Conditions/Poll).
--               Proofs: Conditions/Sound.
--   Configuration  configuration.py, and load_yaml_file of yaml_io.py: the readers of values
--               (Configuration/Expect), the parts of a configuration (Configuration/Parse), the files
--               (Configuration/Load), validate_config (Configuration/Validate). Configuration/Valid
--               and Configuration/Stated describe a configuration that is valid and one that is
--               stated, Configuration/Written the layout of the files. Proofs: Configuration/Repeats,
--               Ports, Parts, Accepted, Read, Roundtrip, Loaded.
--   Manifest    manifest.py: the readers of values (Manifest/Reads), the checks of
--               validate_documents (Manifest/Shape, Images, Routes, Consumers, Workloads, composed in
--               Manifest/Validate), patches (Manifest/Merge) and the build of a kustomization
--               (Manifest/Kustomize). Proofs: Manifest/Safe and its children, Manifest/Accepted,
--               Merged, Patched, Terminates.
--   Redaction   redaction.py: redact_mapping. Proofs: Redaction/Laws, Redaction/Alike.
--   Execution   execution.py: the command log and the logging runner (Execution/Log), one action
--               (Execution/Step), the checks of the inputs (Execution/Validate), execute_plan
--               (Execution/Run), the JSON of a report (Execution/Output, with its
--               proof). Proofs: Execution/Keeping (rules for invariants), Context, Marked, Gate, Report,
--               Recorded, Restore.
--   Apply       cli.py: _handle_apply, which reads the files, checks the arguments and executes the
--               plan. Proof: Apply/Approved.
--   Bundle      airgap_bundle.py: reassemble_parts. Proof: Bundle/Checked.
--   Discovery   discovery.py: select_unique_candidate. Proofs: Discovery/Unique.
--   Capture     snapshot.py: capture_snapshot, redacted_snapshot_preview. Proofs: Capture/Accounted.
--   Registry    registry.py: apply_promotion_plan, image_mapping. Proofs: Registry/Promoted.
--   Tests       runs at concrete data.
--
-- Choices. A command runner is any function from the calls made so far and the next call to a
-- `CommandResult` or an exception, so that a theorem for every runner holds whatever the cluster
-- answers and however it changes in between. The state of an execution is that list of calls, the
-- command log and the log's current action id. A `raise` is the result `err`, and the state stays as
-- it was when it was raised. Messages keep the constant part of their text, since no code reads them;
-- the errors of validate_config are written in full, and an error of validate_documents is its text
-- with the list of the values that are formatted into it. A set is a list that holds no text twice.
-- JSON objects keep the order of their fields, and a real number is kept as its text. Dataclass order
-- is the order of tuples, field by field, and texts are compared by code points. Loops over lists are
-- recursion on the list; a poll recurs on the attempts left, which the code sets to five by default,
-- so that no fuel is needed. The build of a kustomization recurs into directories, on fuel that bounds
-- how many of them are being built; the code refuses a directory that is being built already, so that
-- the number of the directories is enough.
--
-- Parameters stand for code outside the repository or for files: `json.loads` (none on a decode
-- error), the truth of a `float`, `json.dumps`, the hexadecimal digits of SHA-256,
-- `yaml.safe_dump`, `str.lower`, the substitution of text patterns in `redact_text`, the rendered
-- documents of an overlay, the files of a configuration (record `Files`), of a kustomization
-- (record `Tree`) and of the parts of a bundle (record `Media`), and, for the checks of documents,
-- the YAML text of a document, the text of a list or mapping and comparisons of a `float` (record
-- `Python`). No law is assumed of them, except where a theorem names one.
--
-- Not modelled: reading and writing files (a loader gets what `json.load` or `yaml.safe_load`
-- gives), the printed text of reports and plans, the subprocess runner, the command line parser and
-- the handlers other than _handle_apply, the summary of rendered documents and the loader of the
-- image map, and the parts of the program beside these files: the documents that renderer.py and
-- onboarding.py write, GitOps files, the rest of the bundle code, the lifecycle commands, the Kind
-- laboratory, and the verification probes.
pub mod Base
pub mod Models
pub mod Safety
pub mod Ledger
pub mod Planning
pub mod Conditions
pub mod Configuration
pub mod Manifest
pub mod Redaction
pub mod Execution
pub mod Discovery
pub mod Capture
pub mod Registry
pub mod Apply
pub mod Bundle
pub mod Tests
