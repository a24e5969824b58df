-- ===== src/Api/Queue.antt =====
-- `processQueue` of portal/src/lib/api.ts, call by call.
use mutell_demo.Prelude.{
  ℕ, Bool, false, ◌≡◌, refl, List, [], ◌∷◌, ◌++◌, ◌||◌, ◌==◌, if◌then◌else◌, arith, update,
}
use mutell_demo.Api.{Phase, Call, with_phase, settle_all}

-- Whether call `i` waits in the queue.
abbrev pub waits : ℕ → List ℕ → Bool
waits i [] = false
waits i (j ∷ q) = j == i || waits i q

pub waits-append : (i j : ℕ) (q : List ℕ) → waits i (q ++ j ∷ []) ≡ (waits i q || j == i)
waits-append i j [] = ground arith
waits-append i j (k ∷ q) = ground (arith, waits-append i j q)

pub settle_all_lem :
    (p : Phase) (q : List ℕ) (calls : ℕ → Call) (i : ℕ)
    → settle_all p q calls i ≡ (if waits i q then with_phase p (calls i) else calls i)
unfolding settle_all
settle_all_lem p [] calls i = refl
settle_all_lem p (j ∷ q) calls i =
    ground (arith, settle_all_lem p q (update calls j (with_phase p (calls j))) i)
