-- ===== src/Users/Service/Changes.antt =====
-- What the partial documents and the other changes of a user do to the session epoch and to the
-- code of an email change.
use api_user.Prelude.{ℕ, ◌≤◌, String, ◌≡◌, refl, Bool, Option, none, some, List, [], ◌∷◌, arith}
use native.Mathlib.Nat.{le_refl, le-add_right}
use api_user.Users.{
  User, Change, absent, undefined, value, put, put_field, email_change_code_hash, Patch, patched,
  Field, unset, unset_all, id-unset, email_verification_token,
}
use api_user.Users.Repository.{inc_session_epoch, soft_deleted}
use api_user.World.Epochs.{Mode, epochs, codes, codes_but, SameCode, Later, Later-refl, Later-trans}

pub epoch-patched :
    (removes : Bool) (p : Patch) (u : User) → u.session_epoch ≤ (patched removes p u).session_epoch
unfolding patched
epoch-patched removes p u = le_refl _

-- An update that leaves the code of an email change alone.
abbrev pub SparesCode : Option ℕ → Change String → Type 0
SparesCode none absent = Unit
SparesCode attempts hash = ⊥

abbrev pub Spares : Patch → Type 0
Spares p = SparesCode p.email_change_code_attempts p.email_change_code_hash

abbrev pub SparesField : Field → Type 0
SparesField email_change_code_hash = ⊥
SparesField _ = Unit

abbrev pub SparesAll : List Field → Type 0
SparesAll [] = Unit
SparesAll (f ∷ fs) = SparesField f × SparesAll fs

pub nothing : Unit {0}
nothing = tt

kept-put :
    (removes : Bool) (attempts : Option ℕ) (hash : Change String) (n : ℕ) (h : Option String)
    → SparesCode attempts hash
    → (put_field removes hash h ≡ h) × (put attempts n ≡ n)
kept-put removes none absent n h s = (refl, refl)
kept-put removes none undefined n h s = absurd s
kept-put removes none (value a) n h s = absurd s
kept-put removes (some a) hash n h s = absurd s

SameCode-patched :
    (removes : Bool) (p : Patch) (u : User) → Spares p → SameCode u (patched removes p u)
unfolding patched
SameCode-patched removes p u s =
    let (h, n) =
      kept-put removes p.email_change_code_attempts p.email_change_code_hash
        u.email_change_code_attempts u.email_change_code_hash s in
    record { hash = h; attempts = n }

pub Later-patched :
    (mode : Mode) (removes : Bool) (p : Patch) (u : User)
    → Spares p
    → Later mode u (patched removes p u)
unfolding patched
Later-patched epochs removes p u s = le_refl _
Later-patched codes removes p u s = (le_refl _, SameCode-patched removes p u s)
Later-patched (codes_but id) removes p u s =
    (le_refl _, refl, λ other. SameCode-patched removes p u s)

epoch-unset : (f : Field) (u : User) → (unset f u).session_epoch ≡ u.session_epoch
epoch-unset email_verification_token u = refl
epoch-unset _ u = refl

pub epoch-unset_all :
    (fs : List Field) (u : User) → u.session_epoch ≤ (unset_all fs u).session_epoch
unfolding unset_all
epoch-unset_all [] u = le_refl _
epoch-unset_all (f ∷ fs) u = omega (arith, epoch-unset f u, epoch-unset_all fs (unset f u))

SameCode-unset : (f : Field) (u : User) → SparesField f → SameCode u (unset f u)
SameCode-unset email_change_code_hash u s = absurd s
SameCode-unset _ u s = record { hash = refl; attempts = refl }

Later-unset : (mode : Mode) (f : Field) (u : User) → SparesField f → Later mode u (unset f u)
Later-unset epochs email_verification_token u s = le_refl _
Later-unset epochs _ u s = le_refl _
Later-unset codes f u s = (omega (arith, epoch-unset f u), SameCode-unset f u s)
Later-unset (codes_but id) f u s =
    (omega (arith, epoch-unset f u), id-unset f u, λ other. SameCode-unset f u s)

pub Later-unset_all :
    (mode : Mode) (fs : List Field) (u : User) → SparesAll fs → Later mode u (unset_all fs u)
unfolding unset_all
Later-unset_all mode [] u s = Later-refl mode u
Later-unset_all mode (f ∷ fs) u (here, rest) =
    Later-trans mode u (unset f u) (unset_all fs (unset f u)) (Later-unset mode f u here)
      (Later-unset_all mode fs (unset f u) rest)

pub Later-bumped : (mode : Mode) (u : User) → Later mode u (inc_session_epoch u)
Later-bumped epochs u = le-add_right _ 1
Later-bumped codes u = (le-add_right _ 1, record { hash = refl; attempts = refl })
Later-bumped (codes_but id) u =
    (le-add_right _ 1, refl, λ other. record { hash = refl; attempts = refl })

pub Later-deleted : (mode : Mode) (now : ℕ) (u : User) → Later mode u (soft_deleted now u)
Later-deleted epochs now u = le_refl _
Later-deleted codes now u = (le_refl _, record { hash = refl; attempts = refl })
Later-deleted (codes_but id) now u =
    (le_refl _, refl, λ other. record { hash = refl; attempts = refl })
