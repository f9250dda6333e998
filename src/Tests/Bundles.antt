-- ===== src/Tests/Bundles.antt =====
-- A bundle in two parts is reassembled, and one with a false digest is refused.
use airgapped_ai_gateway_k8s.Base.{String, true, false, ap, ◌≡◌, refl, [], ◌∷◌, ◌==◌, if◌then◌else◌}
use airgapped_ai_gateway_k8s.Base.Outcome.{ok, err, bundle_error}
use airgapped_ai_gateway_k8s.Base.Json.{Value, str, arr, obj, nil, item, end, field}
use airgapped_ai_gateway_k8s.Base.Exec
use airgapped_ai_gateway_k8s.Bundle.{Bytes, Media, reassemble_parts}
use airgapped_ai_gateway_k8s.Bundle.Checked.{IsReassembled, reassemble_parts-IsReassembled}

-- A digest that tells lengths below two apart.
abbrev digest : Bytes → String
digest [] = "0"
digest (x ∷ []) = "1"
digest (x ∷ y ∷ ys) = "2"

abbrev media : Media
media = record {
  resolve = λ path. path;
  under_root = λ path. if path == "/etc/passwd" then false else true;
  read_bytes = λ path. if path == "parts/a" then ok (7 ∷ []) else ok (8 ∷ 9 ∷ []);
  sha256_hex = digest;
}

abbrev part : String → String → Value
part path sha256 = obj (field "path" (str path) (field "sha256" (str sha256) end))

abbrev with_parts : Value → Value → Value
with_parts first second =
    obj (field "completeSha256" (str "2") (field "parts" (arr (item first (item second nil))) end))

abbrev metadata : Value
metadata = with_parts (part "parts/a" "1") (part "parts/b" "2")

both_joined :
    reassemble_parts media metadata (5 ∷ []) ≡ (ok (record { sha256 = "2" }), 7 ∷ 8 ∷ 9 ∷ [])
unfolding reassemble_parts Exec.◌>>=◌
both_joined = refl

-- The first part is written by then.
second_refused :
    reassemble_parts media (with_parts (part "parts/a" "1") (part "parts/b" "1")) []
    ≡ (err (bundle_error "part checksum mismatch"), 7 ∷ [])
unfolding reassemble_parts Exec.◌>>=◌
second_refused = refl

outside_refused :
    reassemble_parts media (with_parts (part "/etc/passwd" "1") (part "parts/b" "2")) []
    ≡ (err (bundle_error "path escapes bundle directory"), [])
unfolding reassemble_parts Exec.◌>>=◌
outside_refused = refl

reassemble_parts-IsReassembled_example :
    IsReassembled media metadata
      (record { sha256 = "2" })
      (reassemble_parts media metadata (5 ∷ [])).1
reassemble_parts-IsReassembled_example =
    reassemble_parts-IsReassembled media metadata (5 ∷ []) (record { sha256 = "2" })
      (ap (λ r. r.0) both_joined)
