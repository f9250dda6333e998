-- ===== src/Base/Strip.antt =====
-- `str.strip()` and the test `sub in text` of Python.
use Prim.Native.Char.{code}
use Prim.Native.String.{String, ◌++◌}
use mathlib.Core.Path.{◌≡◌, refl}
use mathlib.Core.Bool.{Bool, true, ◌&&◌, ◌||◌}
use text.Mathlib.Text.{◌==◌, starts_with}
use airgapped_ai_gateway_k8s.Base.Tests.{leb, nat_eq, if◌then◌else◌}
use Prim.Native.Nat.{ℕ}
use mathlib.Core.List.{List, [], ◌∷◌}

-- str.isspace() of one character
unfoldable pub is_space : ℕ → Bool
is_space c =
    leb 9 c && leb c 13
    || (leb 28 c && leb c 32
        || (nat_eq c 133
            || (nat_eq c 160
                || (nat_eq c 5760
                    || (leb 8192 c && leb c 8202
                        || (nat_eq c 8232
                            || (nat_eq c 8233
                                || (nat_eq c 8239 || (nat_eq c 8287 || nat_eq c 12288)))))))))

unfoldable pub lstrip : String → String
unfolding is_space
lstrip String.[] = ""
lstrip (String.◌∷◌ c s) = let rest = lstrip s in if is_space (code c) then rest else String.◌∷◌ c s

unfoldable pub rstrip : String → String
unfolding is_space
rstrip String.[] = ""
rstrip (String.◌∷◌ c s) =
    let rest = rstrip s in if rest == "" && is_space (code c) then "" else String.◌∷◌ c rest

unfoldable pub strip : String → String
unfolding lstrip rstrip
strip s = rstrip (lstrip s)

-- sub in text
unfoldable pub has_substring : String → String → Bool
has_substring sub String.[] = sub == ""
has_substring sub (String.◌∷◌ c s) = starts_with (String.◌∷◌ c s) sub || has_substring sub s

-- text.endswith(end)
unfoldable pub ends_with : String → String → Bool
ends_with String.[] end = end == ""
ends_with (String.◌∷◌ c s) end = String.◌∷◌ c s == end || ends_with s end

-- text.rstrip("/")
unfoldable pub rstrip_slashes : String → String
rstrip_slashes String.[] = ""
rstrip_slashes (String.◌∷◌ c s) =
    let rest = rstrip_slashes s in
    if rest == "" && nat_eq (code c) 47 then "" else String.◌∷◌ c rest

-- separator.join(texts)
unfoldable pub join : String → List String → String
join separator [] = ""
join separator (t ∷ []) = t
join separator (t ∷ u ∷ us) = t ++ separator ++ join separator (u ∷ us)

strip_runs : strip " \tkind-demo \n" ++ strip "  " ≡ "kind-demo"
unfolding strip
strip_runs = refl

has_substring_runs : (has_substring "key" "api_key_id" && has_substring "" "") ≡ true
unfolding has_substring
has_substring_runs = refl

joins : join ", " ("a" ∷ "b" ∷ "c" ∷ []) ≡ "a, b, c"
unfolding join
joins = refl

ends : (ends_with "img:latest" ":latest" && ends_with "img" "") ≡ true
unfolding ends_with
ends = refl

strips_slashes : rstrip_slashes "a/b//" ≡ "a/b"
unfolding rstrip_slashes
strips_slashes = refl
