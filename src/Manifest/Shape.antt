-- ===== src/Manifest/Shape.antt =====
-- `_validate_required_shape` and `_validate_no_secret_material` of manifest.py.
use airgapped_ai_gateway_k8s.Base.{
  String, Bool, true, false, not, ◌&&◌, ◌||◌, List, [], ◌∷◌, ◌++◌, ◌==◌, if◌then◌else◌,
}
use airgapped_ai_gateway_k8s.Base.Strip.{has_substring}
use airgapped_ai_gateway_k8s.Base.Outcome.{Result, ok, collect, ◌>>=◌, ◌then_extend◌}
use airgapped_ai_gateway_k8s.Base.Json.{Value, str, Fields, get, get_or, strs}
use airgapped_ai_gateway_k8s.Conditions.Checks.{is_text}
use airgapped_ai_gateway_k8s.Manifest.Reads.{
  Python, Message, report, metadata_of, resource_id, has_key,
}

unfoldable pub same_texts : List String → List String → Bool
same_texts [] [] = true
same_texts (s ∷ ss) (t ∷ ts) = s == t && same_texts ss ts
same_texts _ _ = false

-- identity in seen
unfoldable pub has_seen : List (List String) → List String → Bool
unfolding same_texts
has_seen [] id = false
has_seen (s ∷ seen) id = same_texts s id || has_seen seen id

-- isinstance(name, str) and name
unfoldable pub is_name : Value → Bool
is_name (str s) = not (s == "")
is_name _ = false

unfoldable pub missing_fields : Fields → List Message
unfolding report has_key
missing_fields document =
    report (not (has_key document "apiVersion")) "document missing apiVersion" []
    ++ report (not (has_key document "kind")) "document missing kind" []
    ++ report (not (has_key document "metadata")) "document missing metadata" []

unfoldable pub name_message : Fields → List Message
unfolding report
name_message document =
    report true "missing metadata.name" (get_or document "kind" (str "<unknown>") ∷ [])

unfoldable pub seen_message : List (List String) → List String → List Message
unfolding report has_seen
seen_message seen id = report (has_seen seen id) "duplicate rendered resource" (strs id ∷ [])

-- The identities seen so far are carried along.
unfoldable pub shape_loop : Python → List (List String) → List Fields → Result (List Message)
unfolding missing_fields metadata_of is_name resource_id name_message seen_message
shape_loop python seen [] = ok []
shape_loop python seen (document ∷ documents) =
    let unnamed = shape_loop python seen documents in
    metadata_of document >>= λ metadata.
    if not (is_name (get metadata "name"))
    then (ok (missing_fields document ++ name_message document) then_extend unnamed)
    else (resource_id python document >>= λ id.
        ok (missing_fields document ++ seen_message seen id)
        then_extend shape_loop python (id ∷ seen) documents)

unfoldable pub validate_required_shape : Python → List Fields → Result (List Message)
unfolding shape_loop
validate_required_shape python documents = shape_loop python [] documents

unfoldable pub secret_messages : Python → Fields → Result (List Message)
unfolding metadata_of report
secret_messages python document =
    let rendered = python.safe_dump document in
    let markers =
      report (has_substring "stringData:" rendered)
        "rendered manifest contains forbidden secret marker stringData:" []
      ++ report (has_substring "client-key-data" rendered)
          "rendered manifest contains forbidden secret marker client-key-data" []
      ++ report (has_substring "client-certificate-data" rendered)
          "rendered manifest contains forbidden secret marker client-certificate-data" [] in
    if is_text (get document "kind") "Secret"
    then (metadata_of document >>= λ metadata.
        ok (report true "normal render creates Secret" (get metadata "name" ∷ []) ++ markers))
    else ok markers

unfoldable pub validate_no_secret_material : Python → List Fields → Result (List Message)
unfolding secret_messages
validate_no_secret_material python documents = collect (secret_messages python) documents
