-- ===== src/Bundle/Checked.antt =====
-- What a reassembled bundle is known to hold.
use mathlib.Core.Path.{◌∙◌}
use mathlib.Core.List.{append-nil, append_assoc}
use airgapped_ai_gateway_k8s.Base.{
  String, Bool, true, false, not, ◌≡◌, refl, sym, List, [], ◌∷◌, ◌++◌, ◌==◌, arith, eq_iff,
}
use airgapped_ai_gateway_k8s.Base.Outcome.{
  Error, Result, ok, err, bundle_error, raise_if, IfOk, IfOk-bind, IfOk-eq,
}
use airgapped_ai_gateway_k8s.Base.Json.{
  Value, null, bool, int, real, str, arr, obj, Items, Fields, get, to_list,
}
use airgapped_ai_gateway_k8s.Base.Exec
use airgapped_ai_gateway_k8s.Base.Exec.{Exec, lift, modify, pure, after_bind}
use airgapped_ai_gateway_k8s.Bundle.{
  Bytes, Media, Reassembled, json_mapping, json_sequence, json_string, safe_relative_path,
  read_part, copy_parts, check_complete, reassemble_parts,
}

-- The entry names a file under the root that holds `content`, with the digest of `content`.
pub record IsPart (media : Media) (entry : Value) (content : Bytes) : Type 0 where
  pub part : Fields
  pub is_object : entry ≡ obj part
  pub relative : String
  pub named : get part "path" ≡ str relative
  pub inside : media.under_root (media.resolve relative) ≡ true
  pub contents : media.read_bytes (media.resolve relative) ≡ ok content
  pub digest : get part "sha256" ≡ str (media.sha256_hex content)

-- The bytes are those of the parts, joined in their order.
pub data AreJoined (media : Media) : List Value → Bytes → Type 0 where
  no_parts : AreJoined media [] []
  one_part :
      {entry : Value} {entries : List Value} {content rest : Bytes}
      → IsPart media entry content
      → AreJoined media entries rest
      → AreJoined media (entry ∷ entries) (content ++ rest)

object_read : (v : Value) (fs : Fields) → json_mapping v ≡ ok fs → v ≡ obj fs
object_read (obj gs) fs h = ground (arith, h)
object_read null fs h = cc
object_read (bool b) fs h = cc
object_read (int n) fs h = cc
object_read (real x) fs h = cc
object_read (str s) fs h = cc
object_read (arr vs) fs h = cc

string_read : (v : Value) (s : String) → json_string v ≡ ok s → v ≡ str s
string_read (str t) s h = ground (arith, h)
string_read null s h = cc
string_read (bool b) s h = cc
string_read (int n) s h = cc
string_read (real x) s h = cc
string_read (obj fs) s h = cc
string_read (arr vs) s h = cc

-- What a check that passed has tested.
test_holds : (b : Bool) (e : Error) (u : Unit {0}) → raise_if (not b) e ≡ ok u → b ≡ true
test_holds true e u h = refl
test_holds false e u h = cc

module _ (media : Media) where
  safe_relative_path-inside :
      (relative : String)
      → IfOk
          (λ path.
            (media.under_root (media.resolve relative) ≡ true) × (path ≡ media.resolve relative))
          (safe_relative_path media relative)
  unfolding safe_relative_path
  safe_relative_path-inside relative =
      IfOk-bind _ (raise_if (not (media.under_root (media.resolve relative))) _) _
        λ u h. (test_holds _ _ u h, refl)

  read_part-IsPart : (entry : Value) → IfOk (IsPart media entry) (read_part media entry)
  unfolding read_part
  read_part-IsPart entry =
      let P = IsPart media entry in
      IfOk-bind P (json_mapping entry) _ λ part a.
        IfOk-bind P (json_string (get part "path")) _ λ relative b.
          IfOk-bind P (safe_relative_path media relative) _ λ path c.
            IfOk-bind P (media.read_bytes path) _ λ content d.
              IfOk-bind P (json_string (get part "sha256")) _ λ expected e.
                IfOk-bind P
                  (raise_if (not (media.sha256_hex content == expected))
                    (bundle_error "part checksum mismatch"))
                  (λ u. ok content)
                  λ u f.
                    let (inside, at) = IfOk-eq _ _ (safe_relative_path-inside relative) c in
                    let same =
                      (eq_iff (media.sha256_hex content) expected).0 (test_holds _ _ u f) in
                    record {
                      part = part;
                      is_object = object_read entry part a;
                      relative = relative;
                      named = string_read (get part "path") relative b;
                      inside = inside;
                      contents = rw (sym at) d;
                      digest = rw same (string_read (get part "sha256") expected e);
                    }

  Copied : List Value → Bytes → Result (Unit {0}) × Bytes → Type 0
  Copied entries before r =
      (u : Unit {0})
      → r.0 ≡ ok u
      → (joined : Bytes) × AreJoined media entries joined × (r.1 ≡ before ++ joined)

  written_part :
      (entry : Value) (entries : List Value) (before : Bytes)
      → ((w : Bytes) → Copied entries w (copy_parts media entries w))
      → (r : Result Bytes) → read_part media entry ≡ r
      → Copied (entry ∷ entries) before (
          Exec.continue r
            (λ content.
              Exec.◌>>◌ (modify (λ written. written ++ content)) (copy_parts media entries))
            before)
  unfolding Copied Exec.continue Exec.◌>>=◌ modify
  written_part entry entries before h (err e) q u p = cc
  written_part entry entries before h (ok content) q u p =
      let (rest, joined, at) = h (before ++ content) u p in
      (
        content ++ rest,
        one_part (IfOk-eq (IsPart media entry) _ (read_part-IsPart entry) q) joined,
        at ∙ append_assoc before content rest,
      )

  copy_parts-Copied :
      (entries : List Value) (before : Bytes)
      → Copied entries before (copy_parts media entries before)
  unfolding copy_parts Copied Exec.◌>>=◌ lift pure
  copy_parts-Copied [] before = λ u p. ([], no_parts, sym (append-nil before))
  copy_parts-Copied (entry ∷ entries) before =
      written_part entry entries before (copy_parts-Copied entries) (read_part media entry) refl

-- What `reassemble_parts` leaves behind when it returns.
pub record IsReassembled (media : Media) (loaded : Value) (report : Reassembled) (written : Bytes)
    : Type 0 where
  pub metadata : Fields
  pub is_object : loaded ≡ obj metadata
  pub entries : Items
  pub listed : get metadata "parts" ≡ arr entries
  pub joined : AreJoined media (to_list entries) written
  pub reported : report.sha256 ≡ media.sha256_hex written
  pub digest : get metadata "completeSha256" ≡ str report.sha256

sequence_read :
    (v : Value) (vs : List Value)
    → json_sequence v ≡ ok vs
    → (es : Items) × (v ≡ arr es) × (to_list es ≡ vs)
sequence_read (arr es) vs h = (es, refl, ground (arith, h))
sequence_read null vs h = cc
sequence_read (bool b) vs h = cc
sequence_read (int n) vs h = cc
sequence_read (real x) vs h = cc
sequence_read (str s) vs h = cc
sequence_read (obj fs) vs h = cc

module _ (media : Media) where
  check_complete_lem :
      (metadata : Fields) (written : Bytes)
      → IfOk
          (λ report.
            (report.sha256 ≡ media.sha256_hex written)
            × (get metadata "completeSha256" ≡ str report.sha256))
          (check_complete media metadata written).0
  unfolding check_complete
  check_complete_lem metadata written =
      IfOk-bind _ (json_string (get metadata "completeSha256")) _ λ expected e.
        IfOk-bind _
          (raise_if (not (media.sha256_hex written == expected))
            (bundle_error "reassembled bundle checksum mismatch"))
          _
          λ u f.
            let same = (eq_iff (media.sha256_hex written) expected).0 (test_holds _ _ u f) in
            (refl, rw same (string_read (get metadata "completeSha256") expected e))

  Finished : Value → Reassembled → Result Reassembled × Bytes → Type 0
  Finished loaded report r = r.0 ≡ ok report → IsReassembled media loaded report r.1

  raised :
      (loaded : Value) (report : Reassembled) (w : Bytes) {A : Type 0} {r : Result A} (e : Error)
      → r ≡ err e
      → Finished loaded report (err e, w)
  unfolding Finished
  raised loaded report w e q p = cc

  last_check :
      (loaded : Value) (report : Reassembled) (metadata : Fields)
      → json_mapping loaded ≡ ok metadata
      → (vs : List Value) → json_sequence (get metadata "parts") ≡ ok vs
      → (u : Unit {0}) → (copy_parts media vs []).0 ≡ ok u
      → Finished loaded report (check_complete media metadata (copy_parts media vs []).1)
  unfolding Finished Copied check_complete
  last_check loaded report metadata a vs b u d p =
      let (entries, listed, same) = sequence_read (get metadata "parts") vs b in
      let (bytes, joined, at) = copy_parts-Copied media vs [] u d in
      let (reported, digest) =
        IfOk-eq _ _ (check_complete_lem metadata (copy_parts media vs []).1) p in
      record {
        metadata = metadata;
        is_object = object_read loaded metadata a;
        entries = entries;
        listed = listed;
        joined = rw (at, same) joined;
        reported = reported;
        digest = digest;
      }

  -- If a reassembly returns, then the output file holds the contents of the listed parts, joined in
  -- their order and with nothing of what it held before; every part is a file under the bundle's
  -- root with the digest that the metadata has for it; and the digest of the output is the one that
  -- the metadata has for the bundle, and the one that is reported.
  pub reassemble_parts-IsReassembled :
      (loaded : Value) (before : Bytes) (report : Reassembled)
      → (reassemble_parts media loaded before).0 ≡ ok report
      → IsReassembled media loaded report (reassemble_parts media loaded before).1
  unfolding reassemble_parts lift modify Finished
  reassemble_parts-IsReassembled loaded before report =
      let P = Finished loaded report in
      after_bind P (lift (json_mapping loaded)) _ before
        (λ metadata a.
          after_bind P (lift (json_sequence (get metadata "parts"))) _ before
            (λ vs b.
              after_bind P (modify (λ w. [])) _ before
                (λ u c.
                  after_bind P (copy_parts media vs) (λ t. check_complete media metadata) []
                    (λ t d. last_check loaded report metadata a vs b t d) (raised loaded report _))
                (raised loaded report _))
            (raised loaded report _))
        (raised loaded report _)
