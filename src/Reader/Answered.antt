-- ===== src/Reader/Answered.antt =====
-- How `attended_read_until` of src/console.rs ends.
use libwing.Prelude.{
  ◌<◌, if◌then◌else◌, ℕ, zero, suc, ◌≤◌, ◌+◌, ◌≡◌, refl, sym, ap, ◌∙◌, Bool, true, false, Option,
  none, some, List, [], ◌∷◌, ◌++◌, append_assoc, append-nil, arith, length, length-append, leb,
  leb→le, leb_false→lt, All,
}
use libwing.Outcome.{Error, ok, err, timeout, invalid_data}
use libwing.Reader.{Main, Run, blocked, done, Reader, WingResponse}
use libwing.Reader.Attended.{
  matched, after_response, attended_read_until, attended_loop, requeue, is_timeout, after_check,
  give_up, max_attended_buffered, Matcher, tick,
}
use libwing.Reader.Response.{read_locked}
use mathlib.Core.Path.{subst}

-- The state after a look at the clock.
abbrev pub ticked : Main → Main
ticked s = (tick s.clock s).1

-- Whether that look finds the deadline passed.
abbrev pub is_late : Main → Bool
is_late s = (tick s.clock s).0

-- From the first state to the second, `read` returned these responses one after the other, and
-- after none of them had the deadline passed.
pub data Received : Main → List WingResponse → Main → Type 0 where
  nothing : {m : Main} → Received m [] m
  then_read :
      {m s t : Main} {r : WingResponse} {rs : List WingResponse}
      → read_locked m ≡ done (ok r) s
      → is_late s ≡ false
      → Received (ticked s) rs t
      → Received m (r ∷ rs) t

-- Why the loop gives up after the responses `rs`: `read` fails, the deadline has passed after
-- the last of them, or there is no room for another response.
pub data Stops (buffered : List WingResponse) (m : Main)
    : List WingResponse → Error → Main → Type 0 where
  fails :
      {rs : List WingResponse} {e : Error} {t u : Main}
      → Received m rs t
      → read_locked t ≡ done (err e) u
      → Stops buffered m rs e u
  late :
      {rs : List WingResponse} {r : WingResponse} {t u : Main}
      → Received m rs t
      → read_locked t ≡ done (ok r) u
      → is_late u ≡ true
      → Stops buffered m (rs ++ r ∷ []) timeout (ticked u)
  overfull :
      {rs : List WingResponse} {r : WingResponse} {t u : Main}
      → Received m rs t
      → read_locked t ≡ done (ok r) u
      → max_attended_buffered ≤ length (buffered ++ rs)
      → Stops buffered m rs invalid_data u

module _ {ℓ} {T : Type ℓ} (matcher : Matcher T) where
  abbrev pub Unmatched : List WingResponse → Type ℓ
  Unmatched = All (λ r. matcher r ≡ none)

  -- The three ends of the loop that starts with `buffered`: it waits inside a `read`; the answer is
  -- the first response that matches, and those before it are handed out in order; it gives up, and
  -- where that is for a timeout, every response goes back to the front of the queue in order.
  abbrev pub Answered : List WingResponse → Main → Run (T × List WingResponse) → Type ℓ
  Answered buffered m (blocked s) =
      (rs : List WingResponse) × (t : Main) × Received m rs t
      × Unmatched rs
      × (read_locked t ≡ blocked s)
  Answered buffered m (done (ok (x, others)) s) =
      (rs : List WingResponse) × (t : Main) × (r : WingResponse) × Received m rs t
      × Unmatched rs
      × (read_locked t ≡ done (ok r) s)
      × (matcher r ≡ some x)
      × (others ≡ buffered ++ rs)
  Answered buffered m (done (err e) s) =
      (rs : List WingResponse) × (u : Main) × Stops buffered m rs e u
      × Unmatched rs
      × (s ≡ (if is_timeout e then requeue (buffered ++ rs) u else u))

  Stops-step :
      (buffered : List WingResponse) (m s : Main) (r : WingResponse) (rs : List WingResponse)
      (e : Error) (u : Main)
      → read_locked m ≡ done (ok r) s
      → is_late s ≡ false
      → Stops (buffered ++ r ∷ []) (ticked s) rs e u
      → Stops buffered m (r ∷ rs) e u
  Stops-step buffered m s r rs e u h early (fails k p) = fails (then_read h early k) p
  Stops-step buffered m s r rs e u h early (late k p q) = late (then_read h early k) p q
  Stops-step buffered m s r rs e u h early (overfull k p q) = overfull (then_read h early k) p (
      omega
        (arith, q, ap (λ (t : List WingResponse). length t) (append_assoc buffered (r ∷ []) rs)))

  Answered-step :
      (buffered : List WingResponse) (m s : Main) (r : WingResponse)
      (run : Run (T × List WingResponse))
      → read_locked m ≡ done (ok r) s
      → is_late s ≡ false
      → matcher r ≡ none
      → Answered (buffered ++ r ∷ []) (ticked s) run
      → Answered buffered m run
  Answered-step buffered m s r (blocked v) h early n (rs, t, k, us, e) =
      (r ∷ rs, t, then_read h early k, (n, us), e)
  Answered-step buffered m s r (done (ok (x, others)) v) h early n (rs, t, w, k, us, e, hx, ho) =
      (r ∷ rs, t, w, then_read h early k, (n, us), e, hx, ho ∙ append_assoc buffered (r ∷ []) rs)
  Answered-step buffered m s r (done (err e) v) h early n (rs, u, k, us, hv) = (
    r ∷ rs,
    u,
    Stops-step buffered m s r rs e u h early k,
    (n, us),
    hv
        ∙ ap (λ (t : List WingResponse). if is_timeout e then requeue t u else u)
            (append_assoc buffered (r ∷ []) rs),
  )

  give_up-Answered :
      (buffered : List WingResponse) (m u : Main) (e : Error)
      → Stops buffered m [] e u
      → Answered buffered m (give_up e buffered u)
  give_up-Answered buffered m u e h = (
    [],
    u,
    h,
    tt,
    ap (λ (t : List WingResponse). if is_timeout e then requeue t u else u)
        (sym (append-nil buffered)),
  )

  after_check-Answered :
      (buffered : List WingResponse) (m s : Main) (r : WingResponse)
      (more : Reader (T × List WingResponse)) (p : Bool × Main)
      → tick s.clock s ≡ p
      → read_locked m ≡ done (ok r) s
      → matcher r ≡ none
      → Answered (buffered ++ r ∷ []) (ticked s) (more (ticked s))
      → Answered buffered m (after_check more (buffered ++ r ∷ []) p)
  after_check-Answered buffered m s r more (true, u) hp h n k = (
    r ∷ [],
    u,
    subst (λ v. Stops buffered m (r ∷ []) timeout v) (ap (λ (q : Bool × Main). q.1) hp)
        (late nothing h (ap (λ (q : Bool × Main). q.0) hp)),
    (n, tt),
    refl,
  )
  after_check-Answered buffered m s r more (false, u) hp h n k =
      Answered-step buffered m s r (more u) h (ap (λ (q : Bool × Main). q.0) hp) n (
        subst (λ v. Answered (buffered ++ r ∷ []) (ticked s) (more v))
          (ap (λ (q : Bool × Main). q.1) hp) k)

  unrelated-Answered :
      (buffered : List WingResponse) (m s : Main) (r : WingResponse)
      (more : Reader (T × List WingResponse)) (b : Bool)
      → leb max_attended_buffered (length buffered) ≡ b
      → read_locked m ≡ done (ok r) s
      → matcher r ≡ none
      → (length buffered < max_attended_buffered
          → Answered (buffered ++ r ∷ []) (ticked s) (more (ticked s)))
      → Answered buffered m (
          if b
          then give_up invalid_data buffered s
          else after_check more (buffered ++ r ∷ []) (tick s.clock s))
  unrelated-Answered buffered m s r more true p h n k = give_up-Answered buffered m s invalid_data (
      overfull nothing h (
        omega (arith, leb→le max_attended_buffered (length buffered) p, length-append buffered [])))
  unrelated-Answered buffered m s r more false p h n k =
      after_check-Answered buffered m s r more (tick s.clock s) refl h n
        (k (leb_false→lt max_attended_buffered (length buffered) p))

  after_response-Answered :
      (buffered : List WingResponse) (m : Main)
      (more : WingResponse → Reader (T × List WingResponse)) (run : Run WingResponse)
      → read_locked m ≡ run
      → ((r : WingResponse) (s : Main)
          → length buffered < max_attended_buffered
          → Answered (buffered ++ r ∷ []) s (more r s))
      → Answered buffered m (after_response matcher buffered more run)
  after_response-Answered buffered m more (blocked s) h k = ([], m, nothing, tt, h)
  after_response-Answered buffered m more (done (err e) s) h k =
      give_up-Answered buffered m s e (fails nothing h)
  after_response-Answered buffered m more (done (ok r) s) h k = answer (matcher r) refl
    where
      answer :
          (o : Option T)
          → matcher r ≡ o
          → Answered buffered m (matched matcher o buffered r (more r) s)
      answer (some x) e = ([], m, r, nothing, tt, h, e, sym (append-nil buffered))
      answer none e = unrelated-Answered buffered m s r (more r) _ refl h e (k r (ticked s))

  attended_loop-Answered :
      (fuel : ℕ) (buffered : List WingResponse) (m : Main)
      → length buffered ≤ max_attended_buffered
      → suc max_attended_buffered ≤ fuel + length buffered
      → Answered buffered m (attended_loop matcher fuel buffered m)
  unfolding attended_loop
  attended_loop-Answered zero buffered m h k = absurd (omega arith)
  attended_loop-Answered (suc fuel) buffered m h k =
      after_response-Answered buffered m _ (read_locked m) refl (λ r s p.
        attended_loop-Answered fuel (buffered ++ r ∷ []) s
          (omega (arith, length-append buffered (r ∷ [])))
          (omega (arith, length-append buffered (r ∷ []))))

  -- A call ends in one of three ways. It waits inside a `read`; or its answer is the first response
  -- that the matcher takes, with those before it in the order of their arrival; or it gives up, with
  -- an error of `read`, with a timeout where the deadline had passed after its last response and not
  -- after one before, or with invalid data where its buffer is full, and where it is a timeout every
  -- response it read goes back to the front of the queue, in order.
  pub attended_read_until-Answered : (m : Main) → Answered [] m (attended_read_until matcher m)
  unfolding attended_read_until
  attended_read_until-Answered m =
      attended_loop-Answered (suc max_attended_buffered) [] m (omega arith) (omega arith)
