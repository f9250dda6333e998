-- ===== src/Conditions/Sound.antt =====
-- What a poll has seen when it returns, and how many calls it makes.
use airgapped_ai_gateway_k8s.Base.{
  ap, ◌<◌, ℕ, zero, suc, ◌≤◌, String, Bool, true, false, List, ◌∷◌, ◌≡◌, refl, Option, none, some,
  arith, ◌⊎◌, inl, inr, Bool-cases, ◌∙◌,
}
use airgapped_ai_gateway_k8s.Base.Int.{pos, int_eq}
use airgapped_ai_gateway_k8s.Base.Outcome.{Error, verification_error, Result, ok, err}
use airgapped_ai_gateway_k8s.Base.Json.{Value, null, bool, int, real, str, arr, obj, Fields}
use airgapped_ai_gateway_k8s.Base.Exec.{◌>>=◌}
use airgapped_ai_gateway_k8s.Base.Runner.{History, Runner, plain_call, run}
use airgapped_ai_gateway_k8s.Models.{CommandResult}
use airgapped_ai_gateway_k8s.Conditions.Poll.{Loads, parse_json_object, poll_loop, poll_condition}

-- The same call `n` more times.
abbrev pub repeated : List String → ℕ → History → History
repeated command zero calls = calls
repeated command (suc n) calls = repeated command n (plain_call command ∷ calls)

module _ (loads : Loads) (runner : Runner) where
  -- The answer to the command, after these calls, is a success whose JSON object passes the checker.
  pub record Shows (command : List String) (checker : Fields → Bool) (calls : History)
      : Type 0 where
    pub result : CommandResult
    pub payload : Fields
    pub answered : runner calls (plain_call command) ≡ ok result
    pub succeeded : int_eq result.returncode (pos 0) ≡ true
    pub loaded : loads result.stdout ≡ some (obj payload)
    pub ready : checker payload ≡ true

  -- The answer is a failure, or a JSON object that does not pass the checker.
  pub data NotYet (command : List String) (checker : Fields → Bool) (calls : History) : Type 0 where
    refused :
        (result : CommandResult)
        → runner calls (plain_call command) ≡ ok result
        → int_eq result.returncode (pos 0) ≡ false
        → NotYet command checker calls
    unready :
        (result : CommandResult) (payload : Fields)
        → runner calls (plain_call command) ≡ ok result
        → int_eq result.returncode (pos 0) ≡ true
        → loads result.stdout ≡ some (obj payload)
        → checker payload ≡ false
        → NotYet command checker calls

  parse_cases :
      (raw : String)
      → ((fs : Fields) × (loads raw ≡ some (obj fs)) × (parse_json_object loads raw ≡ ok fs))
        ⊎ ((e : Error) × (parse_json_object loads raw ≡ err e))
  unfolding parse_json_object
  parse_cases raw = go (loads raw) refl
    where
      go :
          (o : Option Value)
          → loads raw ≡ o
          → ((fs : Fields) × (loads raw ≡ some (obj fs)) × (parse_json_object loads raw ≡ ok fs))
            ⊎ ((e : Error) × (parse_json_object loads raw ≡ err e))
      go none p = inr (verification_error "returned invalid JSON", rw (p, parse_json_object))
      go (some (obj fs)) p = inl (fs, p, rw (p, parse_json_object))
      go (some null) p =
          inr (verification_error "returned non-object JSON", rw (p, parse_json_object))
      go (some (bool b)) p =
          inr (verification_error "returned non-object JSON", rw (p, parse_json_object))
      go (some (int n)) p =
          inr (verification_error "returned non-object JSON", rw (p, parse_json_object))
      go (some (real x)) p =
          inr (verification_error "returned non-object JSON", rw (p, parse_json_object))
      go (some (str x)) p =
          inr (verification_error "returned non-object JSON", rw (p, parse_json_object))
      go (some (arr vs)) p =
          inr (verification_error "returned non-object JSON", rw (p, parse_json_object))

  parse_loaded :
      (raw : String) {fs : Fields} → loads raw ≡ some (obj fs) → parse_json_object loads raw ≡ ok fs
  unfolding parse_json_object
  parse_loaded raw l = rw (l, parse_json_object)

  module _ (command : List String) (checker : Fields → Bool) where
    abbrev loop : ℕ → History → Result (Unit {0}) × History
    loop = poll_loop loads (run runner) command checker

    -- One round: it ends the poll with success, goes on, or raises.
    abbrev Round : ℕ → History → Type 0
    Round attempts calls =
        (Shows command checker calls
          × (loop (suc attempts) calls ≡ (ok tt, plain_call command ∷ calls)))
        ⊎ ((loop (suc attempts) calls ≡ loop attempts (plain_call command ∷ calls))
            ⊎ ((e : Error) × (loop (suc attempts) calls ≡ (err e, plain_call command ∷ calls))))

    round : (attempts : ℕ) (calls : History) → Round attempts calls
    unfolding poll_loop run ◌>>=◌
    round attempts calls = go (runner calls (plain_call command)) refl
      where
        parsed :
            (result : CommandResult)
            → runner calls (plain_call command) ≡ ok result
            → int_eq result.returncode (pos 0) ≡ true
            → ((fs : Fields) × (loads result.stdout ≡ some (obj fs))
                × (parse_json_object loads result.stdout ≡ ok fs))
              ⊎ ((e : Error) × (parse_json_object loads result.stdout ≡ err e))
            → Round attempts calls
        parsed result p z (inl (fs, l, q)) = elim (Bool-cases (checker fs)) [
          | inl y ↦ inl (
            record {
              result = result;
              payload = fs;
              answered = p;
              succeeded = z;
              loaded = l;
              ready = y;
            },
            rw (p, z, q, y),
          )
          | inr n ↦ inr (inl (rw (p, z, q, n)))
        ]
        parsed result p z (inr (e, q)) = inr (inr (e, rw (p, z, q)))

        go :
            (answer : Result CommandResult)
            → runner calls (plain_call command) ≡ answer
            → Round attempts calls
        go (err e) p = inr (inr (e, rw p))
        go (ok result) p = elim (Bool-cases (int_eq result.returncode (pos 0))) [
          | inl z ↦ parsed result p z (parse_cases result.stdout)
          | inr n ↦ inr (inl (rw (p, n)))
        ]

    never_at_zero : (calls : History) → (loop 0 calls).0 ≡ ok tt → ⊥
    unfolding poll_loop ◌>>=◌
    never_at_zero calls h = cc

    poll_loop_sound :
        (attempts : ℕ) (calls : History)
        → (loop attempts calls).0 ≡ ok tt
        → (n : ℕ) × (suc n ≤ attempts)
          × Shows command checker (repeated command n calls)
          × ((loop attempts calls).1 ≡ repeated command (suc n) calls)
    poll_loop_sound zero calls h = absurd (never_at_zero calls h)
    poll_loop_sound (suc attempts) calls h = elim (round attempts calls) [
      | inl (seen, e) ↦ (0, omega arith, seen, ap (λ r. r.1) e)
      | inr (inl e) ↦ later e (poll_loop_sound attempts (plain_call command ∷ calls) (rw e at h))
      | inr (inr (x, e)) ↦ absurd (raised x e)
    ]
      where
        raised : (x : Error) → loop (suc attempts) calls ≡ (err x, plain_call command ∷ calls) → ⊥
        raised x e = cc

        later :
            loop (suc attempts) calls ≡ loop attempts (plain_call command ∷ calls)
            → ((n : ℕ) × (suc n ≤ attempts)
                × Shows command checker (repeated command n (plain_call command ∷ calls))
                × ((loop attempts (plain_call command ∷ calls)).1
                    ≡ repeated command (suc n) (plain_call command ∷ calls)))
            → (n : ℕ) × (suc n ≤ suc attempts)
              × Shows command checker (repeated command n calls)
              × ((loop (suc attempts) calls).1 ≡ repeated command (suc n) calls)
        later e (n, b, seen, q) = (suc n, omega arith, seen, rw e q)

    round_waits :
        (attempts : ℕ) (calls : History)
        → NotYet command checker calls
        → loop (suc attempts) calls ≡ loop attempts (plain_call command ∷ calls)
    unfolding poll_loop run ◌>>=◌
    round_waits attempts calls (refused result p z) = rw (p, z)
    round_waits attempts calls (unready result payload p z l c) =
        rw (p, z, parse_loaded result.stdout l, c)

    round_returns :
        (attempts : ℕ) (calls : History)
        → Shows command checker calls
        → loop (suc attempts) calls ≡ (ok tt, plain_call command ∷ calls)
    unfolding poll_loop run ◌>>=◌
    round_returns attempts calls s =
        rw (s.answered, s.succeeded, parse_loaded s.result.stdout s.loaded, s.ready)

    poll_loop_complete :
        (n attempts : ℕ) (calls : History)
        → ((k : ℕ) → k < n → NotYet command checker (repeated command k calls))
        → Shows command checker (repeated command n calls)
        → n < attempts
        → loop attempts calls ≡ (ok tt, repeated command (suc n) calls)
    poll_loop_complete zero zero calls h s lt = absurd (omega arith)
    poll_loop_complete (suc n) zero calls h s lt = absurd (omega arith)
    poll_loop_complete zero (suc attempts) calls h s lt = round_returns attempts calls s
    poll_loop_complete (suc n) (suc attempts) calls h s lt =
        round_waits attempts calls (h 0 (omega arith))
        ∙ poll_loop_complete n attempts (plain_call command ∷ calls)
            (λ k b. h (suc k) (omega arith)) s (omega arith)

    -- For any runner: a poll that returns has made between one and `attempts` calls, all of them
    -- the poll's own command, and the last one answered with a success whose JSON object passes the
    -- checker.
    pub poll_condition_sound :
        (attempts : ℕ) (calls : History)
        → (poll_condition loads (run runner) command checker (pos attempts) calls).0 ≡ ok tt
        → (n : ℕ) × (suc n ≤ attempts)
          × Shows command checker (repeated command n calls)
          × ((poll_condition loads (run runner) command checker (pos attempts) calls).1
              ≡ repeated command (suc n) calls)
    unfolding poll_condition ◌>>=◌
    poll_condition_sound zero calls h = absurd (raised h)
      where
        raised : (poll_condition loads (run runner) command checker (pos 0) calls).0 ≡ ok tt → ⊥
        raised e = cc
    poll_condition_sound (suc attempts) calls h = poll_loop_sound (suc attempts) calls h

    -- For any runner: if `n` calls, fewer than `attempts`, are refused or show a resource that is
    -- not ready, and the next one shows that it is ready, the poll returns after exactly these calls.
    pub poll_condition_complete :
        (n attempts : ℕ) (calls : History)
        → ((k : ℕ) → k < n → NotYet command checker (repeated command k calls))
        → Shows command checker (repeated command n calls)
        → n < attempts
        → poll_condition loads (run runner) command checker (pos attempts) calls
          ≡ (ok tt, repeated command (suc n) calls)
    unfolding poll_condition ◌>>=◌
    poll_condition_complete n zero calls h s lt = absurd (omega arith)
    poll_condition_complete n (suc attempts) calls h s lt =
        poll_loop_complete n (suc attempts) calls h s lt
