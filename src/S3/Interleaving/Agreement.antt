-- ===== src/S3/Interleaving/Agreement.antt =====
-- What the threads that have reported success agree on (src/key_material.rs).
use aws_kms_demo.Base.{
  ℕ, Bytes, ok, Option, some, Bool-cases, ◌==◌, ==_iff, ◌≡◌, refl, sym, ap, ◌∙◌, subst, inl, inr,
  arith,
}
use aws_kms_demo.S3.Store.{Contents}
use aws_kms_demo.S3.Program.{Program, finished}
use aws_kms_demo.S3.Interleaving.{Move, System, Job, start, set, Reach, here, later}
use aws_kms_demo.S3.Interleaving.Growth.{Grows-Move}
use aws_kms_demo.S3.Interleaving.Safety.{
  Holds, IsSafe, IsSafe-grow, Move-IsSafe, save_program-IsSafe,
}

abbrev AllSafe : (ℕ → Job) → System → Type 0
AllSafe jobs t = (i : ℕ) → IsSafe (jobs i).bucket (jobs i).key (jobs i).body (t.thread i) t.store

Move-AllSafe :
    (jobs : ℕ → Job) (t : System) (i : ℕ) {c : Contents} {p : Program}
    → AllSafe jobs t
    → Move t.store (t.thread i) c p
    → AllSafe jobs (record { store = c; thread = set t.thread i p })
Move-AllSafe jobs t i {c} {p} safe move j = elim (Bool-cases (j == i)) [
  | inl same ↦ rw same (
      subst (λ (k : ℕ). IsSafe (jobs k).bucket (jobs k).key (jobs k).body p c)
        (sym (ground (arith, ==_iff j i)))
        (Move-IsSafe (jobs i).bucket (jobs i).key (jobs i).body move (safe i)))
  | inr other ↦ rw other (
      IsSafe-grow (jobs j).bucket (jobs j).key (jobs j).body (t.thread j) t.store c
        (Grows-Move move) (safe j))
]

Reach-AllSafe :
    (jobs : ℕ → Job) (c : Contents) {t : System} → Reach (start jobs c) t → AllSafe jobs t
Reach-AllSafe jobs c here = λ i. save_program-IsSafe (jobs i).bucket (jobs i).key (jobs i).body c
Reach-AllSafe jobs c (later {t} reach i move) =
    Move-AllSafe jobs t i (Reach-AllSafe jobs c reach) move

-- In every state that threads saving objects reach, however their requests interleave and however
-- S3 replies, a thread that has reported success has its body in the store now, whatever the
-- others have done since.
pub Reach-Holds :
    (jobs : ℕ → Job) (c : Contents) (t : System) (i : ℕ)
    → Reach (start jobs c) t
    → t.thread i ≡ finished (ok tt)
    → t.store (jobs i).bucket (jobs i).key ≡ some (jobs i).body
unfolding IsSafe Holds
Reach-Holds jobs c t i reach won =
    subst (λ (p : Program). IsSafe (jobs i).bucket (jobs i).key (jobs i).body p t.store) won
      (Reach-AllSafe jobs c reach i) refl

same_body : {a b : Bytes} → ◌≡◌ {A = Option Bytes} (some a) (some b) → a ≡ b
same_body h = cc

-- In every state that threads saving objects reach from any contents, however their requests
-- interleave and however S3 replies (it may fail, or create the object and lose the reply), two
-- threads that have reported success for the same bucket and key were saving the same body.
pub Reach-agree :
    (jobs : ℕ → Job) (c : Contents) (t : System) (i j : ℕ)
    → Reach (start jobs c) t
    → (jobs i).bucket ≡ (jobs j).bucket
    → (jobs i).key ≡ (jobs j).key
    → t.thread i ≡ finished (ok tt)
    → t.thread j ≡ finished (ok tt)
    → (jobs i).body ≡ (jobs j).body
Reach-agree jobs c t i j reach same_bucket same_key first second = same_body (
    sym (Reach-Holds jobs c t i reach first)
    ∙ (ap (λ b. t.store b (jobs i).key) same_bucket
        ∙ (ap (λ k. t.store (jobs j).bucket k) same_key ∙ Reach-Holds jobs c t j reach second)))
