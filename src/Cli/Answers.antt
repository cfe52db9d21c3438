-- ===== src/Cli/Answers.antt =====
-- exe/src/main.rs: how a command got its answer from the calls that it makes.
use puzzlefs.Prelude.{◌≡◌, ◌⊎◌, ap, inl, inr, refl}
use puzzlefs.Cli.{Failure, Answer, fail, done, ◌>>=◌}

pub Answer-cases {κ} :
    {T : Type κ} (a : Answer T) → ((e : Failure) × (a ≡ fail e)) ⊎ ((u : T) × (a ≡ done u))
Answer-cases (fail e) = inl (e, refl)
Answer-cases (done u) = inr (u, refl)

pub >>=-eq-done {κ ι} :
    {T : Type κ} {U : Type ι} (m : Answer T) (f : T → Answer U) {u : U}
    → (m >>= f) ≡ done u
    → (t : T) × (m ≡ done t) × (f t ≡ done u)
>>=-eq-done (fail e) f h = cc
>>=-eq-done (done t) f h = (t, refl, h)

abbrev failure_of {κ} : {T : Type κ} → Failure → Answer T → Failure
failure_of e (fail f) = f
failure_of e (done t) = e

pub >>=-eq-fail {κ ι} :
    {T : Type κ} {U : Type ι} (m : Answer T) (f : T → Answer U) {e : Failure}
    → (m >>= f) ≡ fail e
    → (m ≡ fail e) ⊎ ((t : T) × (m ≡ done t) × (f t ≡ fail e))
>>=-eq-fail (fail e') f h = inl (ap fail (ap (failure_of e') h))
>>=-eq-fail (done t) f h = inr (t, refl, h)
