-- ===== src/ObjectRef/Once.antt =====
-- A reference is completed once, and `get` returns what completed it.
use rpc_freethread.Prelude.{
  ℕ, ◌≡◌, refl, ap, ◌∙◌, Option, none, some, List, [], ◌∷◌, arith, true, false,
}
use rpc_freethread.Errors.{Result, ok, err, remote_error}
use rpc_freethread.Value.{Value}
use rpc_freethread.Python.{Python}
use rpc_freethread.ObjectRef.{
  ObjectRef, Completion, result_is, error_is, complete, already_complete, timed_out, set_result,
  set_error, wait_for, get, outcome, ready,
}

-- What a completion makes of `get`.
abbrev pub delivers : Completion → Result Value
delivers (result_is v) = ok v
delivers (error_is t m) = err (remote_error t m)

module _ ⦃py : Python⦄ where
  -- On a completed reference a further completion raises `RuntimeError` and changes nothing.
  pub complete_again :
      (c : Completion) (r : ObjectRef)
      → ready r ≡ true
      → complete c r ≡ (err (already_complete r), r)
  unfolding set_result set_error ready
  complete_again (result_is v) r h = ground arith
  complete_again (error_is t m) r h = ground arith

  pub complete_first :
      (c : Completion) (r : ObjectRef)
      → ready r ≡ false
      → ((complete c r).0 ≡ ok tt)
        × (ready (complete c r).1 ≡ true)
        × ((complete c r).1.call_id ≡ r.call_id)
        × (outcome (complete c r).1 ≡ delivers c)
  unfolding set_result set_error ready outcome
  complete_first (result_is v) r h = ground arith
  complete_first (error_is t m) r h = ground arith

  pub wait_for-ready : (cs : List Completion) (r : ObjectRef) → ready r ≡ true → wait_for cs r ≡ r
  unfolding wait_for
  wait_for-ready [] r h = refl
  wait_for-ready (c ∷ cs) r h = rw (complete_again c r h, wait_for) (wait_for-ready cs r h)

  get-ready :
      (timeout : Option ℕ) (cs : List Completion) (r : ObjectRef)
      → ready r ≡ true
      → get timeout cs r ≡ some (outcome r, r)
  unfolding get ready
  get-ready none cs r h = ground arith
  get-ready (some t) cs r h = ground arith

  get_waits :
      (timeout : Option ℕ) (cs : List Completion) (r r' : ObjectRef)
      → ready r ≡ false
      → wait_for cs r ≡ r'
      → ready r' ≡ true
      → get timeout cs r ≡ some (outcome r', r')
  unfolding get ready
  get_waits none cs r r' h w h' = ground arith
  get_waits (some t) cs r r' h w h' = ground arith

  -- The first completion of a pending reference succeeds, and is what `get` then delivers, with any
  -- timeout and whatever later completions are tried: a value is returned, an error is raised as a
  -- `RemoteError`. A `get` that was already waiting delivers the same.
  pub first_completion_wins :
      (c : Completion) (cs : List Completion) (timeout : Option ℕ) (r : ObjectRef)
      → ready r ≡ false
      → ((complete c r).0 ≡ ok tt)
        × (get timeout cs (complete c r).1 ≡ some (delivers c, (complete c r).1))
        × (get timeout (c ∷ cs) r ≡ some (delivers c, (complete c r).1))
  first_completion_wins c cs timeout r h =
      let (done, is_ready, _, value) = complete_first c r h in
      let after = get-ready timeout cs (complete c r).1 is_ready in
      (
        done,
        after ∙ ap (λ v. some (v, (complete c r).1)) value,
        get_waits timeout (c ∷ cs) r (complete c r).1 h
              (unfold wait_for in wait_for-ready cs (complete c r).1 is_ready) is_ready
            ∙ ap (λ v. some (v, (complete c r).1)) value,
      )

  -- When nobody completes a pending reference, `get` raises `TimeoutError` at the end of its
  -- timeout, and without one it never returns. The reference stays as it was.
  get_uncompleted :
      (t : ℕ) (r : ObjectRef)
      → ready r ≡ false
      → (get (some t) [] r ≡ some (err (timed_out r), r)) × (get none [] r ≡ none)
  unfolding get ready wait_for outcome
  get_uncompleted t r h = (ground arith, ground arith)
