-- ===== src/Bundle.antt =====
-- `reassemble_parts` of src/airgap_ai_gateway/airgap_bundle.py: the parts of a bundle that was split
-- for transfer are joined, and checked against the digests of the metadata.
pub mod Checked
use airgapped_ai_gateway_k8s.Base.{String, Bool, not, ℕ, List, [], ◌∷◌, ◌++◌, ◌==◌}
use airgapped_ai_gateway_k8s.Base.Outcome.{Result, ok, err, bundle_error, raise_if, ◌>>=◌, ◌>>◌}
use airgapped_ai_gateway_k8s.Base.Json.{
  Value, null, bool, int, real, str, arr, obj, Fields, get, to_list,
}
use airgapped_ai_gateway_k8s.Base.Exec
use airgapped_ai_gateway_k8s.Base.Exec.{Exec, pure, lift, modify}

abbrev pub json_mapping : Value → Result Fields
json_mapping (obj fs) = ok fs
json_mapping null = err (bundle_error "must be a JSON object")
json_mapping (bool b) = err (bundle_error "must be a JSON object")
json_mapping (int n) = err (bundle_error "must be a JSON object")
json_mapping (real x) = err (bundle_error "must be a JSON object")
json_mapping (str s) = err (bundle_error "must be a JSON object")
json_mapping (arr vs) = err (bundle_error "must be a JSON object")

abbrev pub json_sequence : Value → Result (List Value)
json_sequence (arr vs) = ok (to_list vs)
json_sequence null = err (bundle_error "must be a JSON list")
json_sequence (bool b) = err (bundle_error "must be a JSON list")
json_sequence (int n) = err (bundle_error "must be a JSON list")
json_sequence (real x) = err (bundle_error "must be a JSON list")
json_sequence (str s) = err (bundle_error "must be a JSON list")
json_sequence (obj fs) = err (bundle_error "must be a JSON list")

abbrev pub json_string : Value → Result String
json_string (str s) = ok s
json_string null = err (bundle_error "must be a JSON string")
json_string (bool b) = err (bundle_error "must be a JSON string")
json_string (int n) = err (bundle_error "must be a JSON string")
json_string (real x) = err (bundle_error "must be a JSON string")
json_string (arr vs) = err (bundle_error "must be a JSON string")
json_string (obj fs) = err (bundle_error "must be a JSON string")

-- The contents of a file.
abbrev pub Bytes : Type 0
Bytes = List ℕ

-- A directory of parts, the files in it, and the digest.
pub record Media : Type 0 where
  -- (root / relative).resolve(), and whether a path lies under the root
  pub resolve : String → String
  pub under_root : String → Bool
  pub read_bytes : String → Result Bytes
  pub sha256_hex : Bytes → String

-- What `reassemble_parts` returns, less the path and the constant status.
pub record Reassembled : Type 0 where
  pub sha256 : String

module _ (media : Media) where
  unfoldable pub safe_relative_path : String → Result String
  safe_relative_path relative = do
    raise_if (not (media.under_root (media.resolve relative)))
        (bundle_error "path escapes bundle directory")
    ok (media.resolve relative)

  -- One part, before it is written.
  unfoldable pub read_part : Value → Result Bytes
  unfolding safe_relative_path
  read_part entry = do
    part ← json_mapping entry
    relative ← json_string (get part "path")
    part_path ← safe_relative_path relative
    content ← media.read_bytes part_path
    expected ← json_string (get part "sha256")
    raise_if (not (media.sha256_hex content == expected)) (bundle_error "part checksum mismatch")
    ok content

  -- The state is what the output file holds, which is none of the parts.
  unfoldable pub copy_parts : List Value → Exec Bytes (Unit {0})
  unfolding read_part
  copy_parts [] = pure tt
  copy_parts (entry ∷ entries) =
      Exec.◌>>=◌ (lift (read_part entry))
        λ content. Exec.◌>>◌ (modify (λ written. written ++ content)) (copy_parts entries)

  unfoldable pub check_complete : Fields → Exec Bytes Reassembled
  check_complete metadata written = (
    json_string (get metadata "completeSha256") >>= λ expected.
        raise_if (not (media.sha256_hex written == expected))
          (bundle_error "reassembled bundle checksum mismatch")
        >> ok (record { sha256 = media.sha256_hex written }),
    written,
  )

  -- `metadata` is what the metadata file holds; the output file is opened for writing, which
  -- empties it.
  unfoldable pub reassemble_parts : Value → Exec Bytes Reassembled
  unfolding copy_parts check_complete
  reassemble_parts loaded = Exec.◌>>=◌ (lift (json_mapping loaded)) λ metadata.
      Exec.◌>>=◌ (lift (json_sequence (get metadata "parts"))) λ parts.
        Exec.◌>>◌ (modify (λ written. [])) (Exec.◌>>◌ (copy_parts parts) (check_complete metadata))
