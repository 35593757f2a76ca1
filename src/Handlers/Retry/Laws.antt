-- ===== src/Handlers/Retry/Laws.antt =====
-- How often a service is restarted.
use Prim.Native.Nat.{min}
use microkube.Base.{
  ℕ, zero, suc, ◌≡◌, refl, ap, ◌∙◌, arith, Bool, List, [], ◌∷◌, ◌++◌, map, length, replicate, drop,
}
use microkube.Base.Int.{pos, negsuc}
use microkube.Handlers.Retry.{start, exit, handle_exits, initial_retries}

exits_below : (n : ℕ) (outcomes : List Bool) → handle_exits (negsuc n) outcomes ≡ map exit outcomes
unfolding handle_exits
exits_below n [] = refl
exits_below n (o ∷ outcomes) = ap (λ t. exit o ∷ t) (exits_below (suc n) outcomes)

exits_at_zero : (outcomes : List Bool) → handle_exits (pos 0) outcomes ≡ map exit outcomes
unfolding handle_exits
exits_at_zero [] = refl
exits_at_zero (o ∷ outcomes) = ap (λ t. exit o ∷ t) (exits_below 0 outcomes)

exits_with_retries :
    (r : ℕ) (outcomes : List Bool)
    → handle_exits (pos (suc r)) outcomes
      ≡ replicate (min r (length outcomes)) start ++ map exit (drop r outcomes)
unfolding handle_exits
exits_with_retries zero [] = refl
exits_with_retries (suc r) [] = let z : min (suc r) 0 ≡ 0 = omega arith in rw z refl
exits_with_retries zero (o ∷ outcomes) =
    let none_left : min 0 (suc (length outcomes)) ≡ 0 = omega arith in
    rw none_left (ap (λ t. exit o ∷ t) (exits_at_zero outcomes))
exits_with_retries (suc r) (o ∷ outcomes) =
    let one_less : min (suc r) (suc (length outcomes)) ≡ suc (min r (length outcomes)) =
      omega arith in
    rw one_less (ap (λ t. start ∷ t) (exits_with_retries r outcomes))

-- With `r` + 1 retries left a service is started again at its first `r` exits, and at every
-- later one the exit handler is called with that exit's success. So with the number of retries
-- that a new handler has, a service is never started again: its first exit is final.
pub handle_exits_lem :
    (r : ℕ) (outcomes : List Bool)
    → (handle_exits (pos (suc r)) outcomes
        ≡ replicate (min r (length outcomes)) start ++ map exit (drop r outcomes))
      × (handle_exits initial_retries outcomes ≡ map exit outcomes)
handle_exits_lem r outcomes =
    let none_left : min 0 (length outcomes) ≡ 0 = omega arith in
    (exits_with_retries r outcomes, exits_with_retries 0 outcomes ∙ rw none_left refl)
