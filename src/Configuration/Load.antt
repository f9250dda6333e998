-- ===== src/Configuration/Load.antt =====
-- `load_config` and `_load_raw_config` of configuration.py, and `load_yaml_file` of yaml_io.py.
use airgapped_ai_gateway_k8s.Base.{String, Bool, not, List, [], ◌∷◌, ◌++◌, ◌<>◌, if◌then◌else◌, map}
use airgapped_ai_gateway_k8s.Base.Order.{sorted}
use airgapped_ai_gateway_k8s.Base.Outcome.{
  Result, ok, err, config_error, python_error, traverse, ◌>>=◌, ◌>>◌,
}
use airgapped_ai_gateway_k8s.Base.Json.{
  Value, arr, obj, nil, Fields, end, field, get_or, put, of_list,
}
use airgapped_ai_gateway_k8s.Registry.{truthy}
use airgapped_ai_gateway_k8s.Models.{GatewayConfig}
use airgapped_ai_gateway_k8s.Configuration.Expect.{expect_mapping, expect_list}
use airgapped_ai_gateway_k8s.Configuration.Parse.{parse_config}
use airgapped_ai_gateway_k8s.Configuration.Validate.{validate_config}

-- What the code asks of files: the tests of a path, `path / name`, the `*.yaml` files of a
-- directory, their order, what `yaml.safe_load` gives for a file, and which real numbers are 0.
pub record Files : Type 0 where
  pub is_file : String → Bool
  pub is_dir : String → Bool
  pub exists : String → Bool
  pub child : String → String → String
  pub yaml_files : String → List String
  pub path_lt : String → String → Bool
  pub safe_load : String → Result Value
  pub zero_real : String → Bool

-- yaml.safe_load(handle) or {}, which must be a mapping
unfoldable pub yaml_mapping : (String → Bool) → Value → Result Fields
unfolding truthy
yaml_mapping zero_real (obj fs) = ok fs
yaml_mapping zero_real loaded =
    if truthy zero_real loaded then err (python_error "TypeError") else ok end

-- raw.update(d)
unfoldable pub update : Fields → Fields → Fields
update raw end = raw
update raw (field k v d) = update (put raw k v) d

unfoldable pub as_mapping : Fields → Value
as_mapping fs = obj fs

unfoldable pub model_item : Value → Result Fields
model_item value = expect_mapping value "models[]"

module _ (files : Files) where
  unfoldable pub load_yaml_file : String → Result Fields
  unfolding yaml_mapping
  load_yaml_file path = files.safe_load path >>= yaml_mapping files.zero_real

  -- The models of one file of the directory.
  unfoldable pub load_models : String → Result (List Fields)
  unfolding load_yaml_file model_item
  load_models path = do
    data_of ← load_yaml_file path
    items ← expect_list (get_or data_of "models" (arr nil)) "field models"
    traverse model_item items

  unfoldable pub load_all_models : List String → Result (List Fields)
  unfolding load_models
  load_all_models [] = ok []
  load_all_models (path ∷ paths) = do
    models ← load_models path
    rest ← load_all_models paths
    ok (models ++ rest)

  unfoldable pub require_path : Bool → String → Result (Unit {0})
  require_path found message = if found then ok tt else err (config_error message)

  unfoldable pub load_directory : String → Result Fields
  unfolding load_yaml_file load_all_models require_path update as_mapping
  load_directory path = do
    require_path (files.exists (files.child path "platform.yaml"))
        ("missing platform configuration: " <> files.child path "platform.yaml")
    platform ← load_yaml_file (files.child path "platform.yaml")
    models ← load_all_models (sorted files.path_lt (files.yaml_files (files.child path "models")))
    require_path (files.exists (files.child path "consumers.yaml"))
        ("missing consumer configuration: " <> files.child path "consumers.yaml")
    consumers ← load_yaml_file (files.child path "consumers.yaml")
    ok (
        update (put (update end platform) "models" (arr (of_list (map as_mapping models))))
          consumers)

  unfoldable pub load_raw_config : String → Result Fields
  unfolding load_yaml_file load_directory
  load_raw_config path =
      if files.is_file path
      then load_yaml_file path
      else if not (files.is_dir path)
      then err (config_error ("configuration path does not exist: " <> path))
      else load_directory path

  unfoldable pub load_config : String → Result GatewayConfig
  unfolding load_raw_config parse_config validate_config
  load_config path = do
    raw ← load_raw_config path
    config ← parse_config raw
    validate_config config
    ok config
