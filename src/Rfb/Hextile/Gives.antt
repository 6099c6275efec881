-- ===== src/Rfb/Hextile/Gives.antt =====
-- What the steps of HEXTILE, in statics/include/rfb.js, give when they are done.
use routercenter_old.Prelude.{
  ℕ, ◌+◌, ◌≡◌, ◌≤◌, refl, Bool, true, false, Option, none, some, List, length, if◌then◌else◌, arith,
}
use routercenter_old.Prelude.Int.{pos, ◌-ℤ◌}
use routercenter_old.Prelude.Result.{Result, ok, err, Exception, type_error}
use routercenter_old.Websock
use routercenter_old.Websock.{Websock}
use routercenter_old.Rfb.{Rfb, M, ◌>>=◌}
use routercenter_old.Rfb.Queue.{wait}
use routercenter_old.Rfb.Hextile.{need}

-- What is thrown is a look at a colour that is null.
abbrev pub Throws : Exception → Type 0
Throws e = e ≡ type_error

-- What holds of an answer and the state after it, if nothing is thrown.
abbrev pub Gives {ℓ} : {A : Type ℓ} → (A → Rfb → Type 0) → Result A × Rfb → Type 0
Gives Q (ok a, r) = Q a r
Gives Q (err e, r) = Throws e

module _ {ℓ ℓ'} where
  chained :
      {A : Type ℓ} {B : Type ℓ'} (Q : B → Rfb → Type 0) (f : A → M B) (out : Result A × Rfb)
      → Gives (λ a r. Gives Q (f a r)) out
      → Gives Q (
          let (o, r') = out in
          elim o as (λ _. Result B × Rfb) [ ok a ↦ f a r' | err e ↦ (err e, r') ])
  chained Q f (ok a, r) h = h
  chained Q f (err e, r) h = h

  pub then-Gives :
      {A : Type ℓ} {B : Type ℓ'} (Q : B → Rfb → Type 0) (m : M A) (f : A → M B) (r : Rfb)
      → Gives (λ a r'. Gives Q (f a r')) (m r)
      → Gives Q ((m >>= f) r)
  unfolding ◌>>=◌
  then-Gives Q m f r h = chained Q f (m r) h

pub branches_give {ℓ} :
    {A : Type ℓ} (Q : A → Rfb → Type 0) (b : Bool) (x y : Result A × Rfb)
    → (b ≡ true → Gives Q x)
    → (b ≡ false → Gives Q y)
    → Gives Q (if b then x else y)
branches_give Q true x y h k = h refl
branches_give Q false x y h k = k refl

pub either-Gives {ℓ} :
    {A : Type ℓ} (Q : A → Rfb → Type 0) (b : Bool) (m n : M A) (r : Rfb)
    → (b ≡ true → Gives Q (m r))
    → (b ≡ false → Gives Q (n r))
    → Gives Q ((if b then m else n) r)
either-Gives Q true m n r h k = h refl
either-Gives Q false m n r h k = k refl

-- Weaker claims.
pub weaken {ℓ} :
    {A : Type ℓ} (Q : A → Rfb → Type 0) (R : A → Rfb → Type 0) (out : Result A × Rfb)
    → ((a : A) (r : Rfb) → Q a r → R a r)
    → Gives Q out
    → Gives R out
weaken Q R (ok a, r) k h = k a r h
weaken Q R (err e, r) k h = h

pub wait-Gives :
    (n : ℕ) (r : Rfb) (Q : Bool → Rfb → Type 0)
    → Q true r
    → (r.sock.rqi + n ≤ length r.sock.rq → Q false r)
    → Gives Q (wait (some (pos n)) (pos 0) r)
unfolding wait Websock.rq_len Websock.set_rqi ◌-ℤ◌
wait-Gives n r Q short enough = ground arith

pub need-Gives :
    (color : Option (List (Option ℕ))) (r : Rfb) (Q : List (Option ℕ) → Rfb → Type 0)
    → ((c : List (Option ℕ)) → color ≡ some c → Q c r)
    → Gives Q (need color r)
unfolding need
need-Gives none r Q k = refl
need-Gives (some c) r Q k = k c refl
