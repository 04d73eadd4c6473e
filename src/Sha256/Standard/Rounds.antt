-- ===== src/Sha256/Standard/Rounds.antt =====
-- The rounds of computeBlock and those of the standard.
use wrutil.Common.{ℕ, zero, suc, ◌≡◌, refl, ap, ◌∙◌, sym, arith, List, [], ◌∷◌, length, get_or, map}
use wrutil.Sha256.{initial_hash}
use wrutil.Sha256.Block.{
  Registers, rounds, round, round_constants, big_sigma0, big_sigma1, ch, maj, complement,
  rotate_right, add_registers,
}
use wrutil.Sha256.Standard.{primes, cube_root, constant, first_hash, step, run, sum}

constants : round_constants ≡ map cube_root primes
constants = refl

pub initial_hash-first_hash : initial_hash ≡ first_hash
initial_hash-first_hash = refl

round-step : (r : Registers) (k w : ℕ) → round r k w ≡ step r k w
unfolding round big_sigma0 big_sigma1 ch maj complement rotate_right
round-step r k w = refl

run_later :
    (k w : ℕ → ℕ) (t n : ℕ) (r : Registers)
    → run k w (suc t) n r ≡ run (λ i. k (suc i)) (λ i. w (suc i)) t n r
run_later k w t zero r = refl
run_later k w t (suc n) r = run_later k w (suc t) n (step r (k (suc t)) (w (suc t)))

rounds-run :
    (r : Registers) (ks ws : List ℕ)
    → length ws ≡ length ks
    → rounds r ks ws ≡ run (λ t. get_or ks t 0) (λ t. get_or ws t 0) 0 (length ks) r
unfolding rounds
rounds-run r [] [] e = refl
rounds-run r [] (w ∷ ws) e = refl
rounds-run r (k ∷ ks) [] e = absurd (omega (arith, e))
rounds-run r (k ∷ ks) (w ∷ ws) e =
    rounds-run (round r k w) ks ws (omega (arith, e))
    ∙ ap (λ s. run (λ t. get_or ks t 0) (λ t. get_or ws t 0) 0 (length ks) s) (round-step r k w)
    ∙ sym
        (run_later (λ t. get_or (k ∷ ks) t 0) (λ t. get_or (w ∷ ws) t 0) 0 (length ks) (step r k w))

pub rounds-constant :
    (r : Registers) (ws : List ℕ)
    → length ws ≡ 64
    → rounds r round_constants ws ≡ run constant (λ t. get_or ws t 0) 0 64 r
rounds-constant r ws e =
    rounds-run r round_constants ws e
    ∙ ap (λ ks. run (λ t. get_or ks t 0) (λ t. get_or ws t 0) 0 64 r) constants

pub add_registers-sum : (r s : Registers) → add_registers r s ≡ sum r s
unfolding add_registers
add_registers-sum r s = refl
