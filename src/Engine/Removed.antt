-- ===== src/Engine/Removed.antt =====
-- docker.go of pkg/envd: removing a container, by `Destroy` and by `CleanEnvdIfExists`.
use envd.Base.{
  String, Bool, true, false, ◌≡◌, refl, sym, ap, ◌⊎◌, inl, inr, Bool-cases, if◌then◌else◌,
}
use envd.Base.Text.{codes}
use envd.Engine.{
  ApiError, Reply, replied, failed, Client, Error, Result, ok, err, api, contains, E, pure, fail,
  settle, call, wrap,
}
use envd.Engine.Docker.{
  no_such_container, remove_image, remove_both, after_kill, kill_and_remove, destroy,
}

-- What the documentation of the daemon says of containers, where `has s name` tells whether a container
-- of the name exists in the state `s`.
pub record IsDaemon (c : Client) (has : c.State → String → Bool) : Type 0 where
  -- Inspecting changes nothing, and fails for want of the container only if there is none.
  pub inspect_keeps : (n : String) (s : c.State) → (c.container_inspect n s).1 ≡ s
  pub inspect_missing :
      (n : String) (s : c.State) (e : ApiError)
      → (c.container_inspect n s).0 ≡ failed e
      → no_such_container e ≡ true
      → has s n ≡ false
  pub inspect_not_found :
      (n : String) (s : c.State) (e : ApiError)
      → (c.container_inspect n s).0 ≡ failed e
      → e.not_found ≡ true
      → has s n ≡ false
  -- So does killing.
  pub kill_missing :
      (n : String) (s : c.State) (e : ApiError)
      → (c.container_kill n s).0 ≡ failed e
      → no_such_container e ≡ true
      → has (c.container_kill n s).1 n ≡ false
  -- Removing a container removes it, and removing an image brings none back.
  pub remove_removes :
      (n : String) (force : Bool) (s : c.State)
      → (c.container_remove n force s).0 ≡ replied tt
      → has (c.container_remove n force s).1 n ≡ false
  pub image_remove_keeps :
      (n image : String) (s : c.State) → has s n ≡ false → has (c.image_remove image s).1 n ≡ false

pub result_conflict : {B : Type 0} (e : Error) (x : B) → err e ≡ ok x → ⊥
result_conflict e x q = cc

pub err_ok : {S B : Type 0} (e : Error) (s s' : S) (x : B) → fail e s ≡ (ok x, s') → ⊥
err_ok e s s' x p = result_conflict e x (ap (λ (r : Result _ × _). r.0) p)

module _ {S A B : Type 0} where
  -- A call that ended well was answered, and what follows ended well, or failed in a way that is no error.
  settle_ok :
      (k : A → E S B) (h : ApiError → E S B) (r : Reply A × S) (x : B) (s' : S)
      → settle k h r ≡ (ok x, s')
      → ((a : A) × (r.0 ≡ replied a) × (k a r.1 ≡ (ok x, s')))
        ⊎ ((e : ApiError) × (r.0 ≡ failed e) × (h e r.1 ≡ (ok x, s')))
  settle_ok k h (replied a, s) x s' p = inl (a, refl, p)
  settle_ok k h (failed e, s) x s' p = inr (e, refl, p)

  pub call_ok :
      (m : S → Reply A × S) (k : A → E S B) (h : ApiError → E S B) (s : S) (x : B) (s' : S)
      → call m k h s ≡ (ok x, s')
      → ((a : A) × ((m s).0 ≡ replied a) × (k a (m s).1 ≡ (ok x, s')))
        ⊎ ((e : ApiError) × ((m s).0 ≡ failed e) × (h e (m s).1 ≡ (ok x, s')))
  call_ok m k h s x s' p = settle_ok k h (m s) x s' p

module _ (c : Client) (has : c.State → String → Bool) (daemon : IsDaemon c has) where
  open c use {State, container_inspect, container_kill, container_remove, image_remove}

  remove_image-removes :
      (name image r : String) (s s' : State)
      → has s name ≡ false
      → remove_image c name image s ≡ (ok r, s')
      → has s' name ≡ false
  remove_image-removes name image r s s' h p =
      elim (call_ok (image_remove image) (λ _. pure name) wrap s r s' p) [
        | inl (a, q, e) ↦
            rw (sym (ap (λ (x : Result String × State). x.1) e))
              (daemon.image_remove_keeps name image s h)
        | inr (a, q, e) ↦ absurd (err_ok (api a) (image_remove image s).1 s' r e)
      ]

  remove_both-removes :
      (name image r : String) (s s' : State)
      → remove_both c name image s ≡ (ok r, s')
      → has s' name ≡ false
  remove_both-removes name image r s s' p =
      elim (call_ok (container_remove name false) (λ _. remove_image c name image) wrap s r s' p) [
        | inl (a, q, e) ↦
            remove_image-removes name image r (container_remove name false s).1 s'
              (daemon.remove_removes name false s q) e
        | inr (a, q, e) ↦ absurd (err_ok (api a) (container_remove name false s).1 s' r e)
      ]

  missing-removes :
      (name r : String) (e : ApiError) (s s' : State)
      → (no_such_container e ≡ true → has s name ≡ false)
      → (if no_such_container e then pure "" else wrap e) s ≡ (ok r, s')
      → has s' name ≡ false
  missing-removes name r e s s' h p = elim (Bool-cases (no_such_container e)) [
    | inl n ↦ rw (sym (ap (λ (x : Result String × State). x.1) (rw n at p))) (h n)
    | inr n ↦ absurd (err_ok (api e) s s' r (rw n at p))
  ]

  kill_and_remove-removes :
      (name image r : String) (s s' : State)
      → kill_and_remove c name image s ≡ (ok r, s')
      → has s' name ≡ false
  kill_and_remove-removes name image r s s' p =
      elim (call_ok (container_kill name) (λ _. remove_both c name image) (after_kill c name image)
        s r s' p) [
          | inl (a, q, e) ↦ remove_both-removes name image r (container_kill name s).1 s' e
          | inr (a, q, e) ↦ elim (Bool-cases (contains a.cause (codes "is not running"))) [
            | inl n ↦ remove_both-removes name image r (container_kill name s).1 s' (rw n at e)
            | inr n ↦
                missing-removes name r a (container_kill name s).1 s'
                  (daemon.kill_missing name s a q) (rw n at e)
          ]
        ]

  -- With a daemon as documented, where `Destroy` ends without an error there is no container of the name,
  -- whether it found none, killed a running one, or found one that was not running.
  pub destroy-removes :
      (name r : String) (s s' : State) → destroy c name s ≡ (ok r, s') → has s' name ≡ false
  unfolding destroy
  destroy-removes name r s s' p =
      elim (call_ok (container_inspect name) (λ ctr. kill_and_remove c name ctr.image)
        (λ e. if no_such_container e then pure "" else wrap e) s r s' p) [
          | inl (a, q, e) ↦ kill_and_remove-removes name a.image r (container_inspect name s).1 s' e
          | inr (a, q, e) ↦
              missing-removes name r a (container_inspect name s).1 s'
                (λ n. rw (daemon.inspect_keeps name s) (daemon.inspect_missing name s a q n)) e
        ]
