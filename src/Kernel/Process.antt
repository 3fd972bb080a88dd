-- ===== src/Kernel/Process.antt =====
-- A process: the machine, and the descriptors that the code has opened and not closed. The second
-- part is kept by the model.
use icbinn.Common.{
  ℕ, ◌≡◌, refl, ap, true, Bool-cases, List, [], ◌∷◌, ◌==◌, ==_iff, inl, inr, if◌then◌else◌, arith,
}

pub record Proc (W : Type 0) : Type 0 where
  pub world : W
  pub fds : List ℕ

-- AF_INET and AF_INETV4V
pub data Family : Type 0 where
  inet inet_v4v : Family

-- One descriptor less.
unfoldable pub remove_fd : ℕ → List ℕ → List ℕ
remove_fd fd [] = []
remove_fd fd (x ∷ fds) = if fd == x then fds else x ∷ remove_fd fd fds

pub remove_fd-next : (a x : ℕ) (fds : List ℕ) → remove_fd x (a ∷ x ∷ fds) ≡ a ∷ fds
unfolding remove_fd
remove_fd-next a x fds = elim (Bool-cases (x == a)) [
  | inl e ↦ rw e (ap (λ b. b ∷ fds) ((==_iff x a).0 e))
  | inr e ↦ let same : (x == x) ≡ true = ground arith in rw (e, same) refl
]

pub remove_fd-head : (x : ℕ) (fds : List ℕ) → remove_fd x (x ∷ fds) ≡ fds
unfolding remove_fd
remove_fd-head x fds = let same : (x == x) ≡ true = ground arith in rw same refl
