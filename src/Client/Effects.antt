-- ===== src/Client/Effects.antt =====
-- What `_send_request` promises, for each result.
use rpc_freethread.Prelude.{ℕ, ◌<◌, String, true, false, ◌≡◌, some, ◌⊎◌}
use rpc_freethread.Prelude.Dict.{get}
use rpc_freethread.Errors.{Result, ok, err, remote_error}
use rpc_freethread.Python.{Python}
use rpc_freethread.ObjectRef.{ready, outcome}
use rpc_freethread.Client.State.{Client}

-- A request went out: its reference is new and waits, the map has it and is otherwise as before, and
-- so is every older reference.
pub record Issued (id : String) (c c' : Client) (a : ℕ) : Type 0 where
  pub is_new : a ≡ c.next_ref
  pub waits : ready (c'.refs a) ≡ false
  pub listed : get id c'.pending ≡ some a
  pub calls_same : (j : String) → (j ≡ id) ⊎ (get j c'.pending ≡ get j c.pending)
  pub refs_same : (b : ℕ) → b < c.next_ref → c'.refs b ≡ c.refs b

module _ ⦃py : Python⦄ where
  -- A request did not go out: the map and every older reference are as before, and the new reference
  -- has failed, unless the message could not be encoded.
  pub record Undone (is_unencoded : Type 0) (c c' : Client) : Type 0 where
    pub calls_same : (j : String) → get j c'.pending ≡ get j c.pending
    pub refs_same : (b : ℕ) → b < c.next_ref → c'.refs b ≡ c.refs b
    pub failed :
        is_unencoded
        ⊎ ((ready (c'.refs c.next_ref) ≡ true)
            × (outcome (c'.refs c.next_ref)
                ≡ err (remote_error "ConnectionError" "failed to send remote call")))

  abbrev pub Effect : Type 0 → String → Client → Result ℕ → Client → Type 0
  Effect is_unencoded id c (ok a) c' = Issued id c c' a
  Effect is_unencoded id c (err e) c' = Undone is_unencoded c c'
