-- ===== src/Scheduler/Closing.antt =====
-- What `Close` tells those who wait (internal/engine/scheduler/scheduler.go).
use varc.Base.{
  ◌≡◌, refl, inl, inr, true, false, Option, none, List, [], ◌∷◌, ◌++◌, if◌then◌else◌, Bool-cases,
}
use varc.Scheduler.Item.{ItemView}
use varc.Scheduler.Serving.{Any}
use varc.Scheduler.{Error, Env, Waiter, Downloaders}
use varc.Scheduler.Waiters.{
  answer_all, close, close_waiters, dispatch_waiters, still_waiting, now_served, is_served,
}

Any-append_left {ℓ} : {A : Type ℓ} (P : A → Type 0) (xs ys : List A) → Any P xs → Any P (xs ++ ys)
Any-append_left P [] ys h = elim h [ ]
Any-append_left P (x ∷ xs) ys (inl p) = inl p
Any-append_left P (x ∷ xs) ys (inr h) = inr (Any-append_left P xs ys h)

Any-append_right {ℓ} : {A : Type ℓ} (P : A → Type 0) (xs ys : List A) → Any P ys → Any P (xs ++ ys)
Any-append_right P [] ys h = h
Any-append_right P (x ∷ xs) ys h = inr (Any-append_right P xs ys h)

answer_all-told :
    (err : Option Error) (ws : List Waiter) (w : Waiter)
    → Any (λ v. v ≡ w) ws
    → Any (λ a. a ≡ (w.id, err)) (answer_all err ws)
unfolding answer_all
answer_all-told err [] w h = elim h [ ]
answer_all-told err (v ∷ ws) w (inl e) = inl (rw e refl)
answer_all-told err (v ∷ ws) w (inr h) = inr (answer_all-told err ws w h)

now_served-Any :
    (env : Env) (item : ItemView) (ws : List Waiter) (w : Waiter)
    → Any (λ v. v ≡ w) ws
    → is_served env item w ≡ true
    → Any (λ v. v ≡ w) (now_served env item ws)
unfolding now_served
now_served-Any env item [] w h s = elim h [ ]
now_served-Any env item (v ∷ ws) w (inl e) s =
    let s' : is_served env item v ≡ true = rw e s in rw s' (inl e)
now_served-Any env item (v ∷ ws) w (inr h) s = elim (Bool-cases (is_served env item v)) [
  | inl e ↦ rw e (inr (now_served-Any env item ws w h s))
  | inr e ↦ rw e (now_served-Any env item ws w h s)
]

still_waiting-Any :
    (env : Env) (item : ItemView) (ws : List Waiter) (w : Waiter)
    → Any (λ v. v ≡ w) ws
    → is_served env item w ≡ false
    → Any (λ v. v ≡ w) (still_waiting env item ws)
unfolding still_waiting
still_waiting-Any env item [] w h s = elim h [ ]
still_waiting-Any env item (v ∷ ws) w (inl e) s =
    let s' : is_served env item v ≡ false = rw e s in rw s' (inl e)
still_waiting-Any env item (v ∷ ws) w (inr h) s = elim (Bool-cases (is_served env item v)) [
  | inl e ↦ rw e (still_waiting-Any env item ws w h s)
  | inr e ↦ rw e (inr (still_waiting-Any env item ws w h s))
]

-- `Close(inErr)` tells each waiter no error if its clipped range is present, and `inErr` if not: a
-- `Close(nil)` tells success to waiters whose bytes are not there.
pub close-told :
    (env : Env) (item : ItemView) (d : Downloaders) (in_err : Option Error) (w : Waiter)
    → Any (λ v. v ≡ w) d.waiters
    → Any
        (λ a. a ≡ (w.id, if is_served env item w then none else in_err))
        (close env item d in_err).answers
unfolding close close_waiters dispatch_waiters
close-told env item d in_err w h = elim (Bool-cases (is_served env item w)) [
  | inl e ↦ rw e (
      Any-append_left (λ a. a ≡ (w.id, none))
        (d.answers ++ answer_all none (now_served env item d.waiters))
        (answer_all in_err (still_waiting env item d.waiters))
        (Any-append_right (λ a. a ≡ (w.id, none)) d.answers
          (answer_all none (now_served env item d.waiters))
          (answer_all-told none (now_served env item d.waiters) w
            (now_served-Any env item d.waiters w h e))))
  | inr e ↦ rw e (
      Any-append_right (λ a. a ≡ (w.id, in_err))
        (d.answers ++ answer_all none (now_served env item d.waiters))
        (answer_all in_err (still_waiting env item d.waiters))
        (answer_all-told in_err (still_waiting env item d.waiters) w
          (still_waiting-Any env item d.waiters w h e)))
]
