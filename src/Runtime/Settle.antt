-- ===== src/Runtime/Settle.antt =====
-- `_create_actor` under the actors lock, and the operations that set up and take down connections.
use rpc_freethread.Prelude.{
  ℕ, String, ◌<>◌, Bool, true, false, ◌≡◌, refl, sym, subst, none, some, List, [], ◌∷◌, arith, ◌⊎◌,
  inl, inr, Bool-cases, ◌==◌, if◌then◌else◌, eq_iff, ◌≢◌, Among, here, there, str_eq,
}
use rpc_freethread.Prelude.Dict.{Dict, get, put, remove, contains, get-remove}
use rpc_freethread.Errors.{Error, Result, ok, err, value_error, connection_closed_error}
use rpc_freethread.Exec.{Exec, modify, gets, lift, ◌>>=◌, ◌>>◌, >>=-eq-ok}
use rpc_freethread.Value.{nothing, Items, Fields}
use rpc_freethread.Python.{Python, quoted}
use rpc_freethread.Serializer.{Serializer}
use rpc_freethread.Registry.{get_class}
use rpc_freethread.Runtime.Respond.{send_result}
use rpc_freethread.Runtime.State.{Runtime, ActorEntry, update, shut_down}
use rpc_freethread.Runtime.Invoke.{UserCode}
use rpc_freethread.Runtime.Actors.{
  insert_actor, settle_actor, cancel_executor, report_failure, construct_actor, new_entry,
  owned_ids, on_world, remove_all, take_owned,
}
use rpc_freethread.Runtime.Lifecycle.{shut_connections, leave, send_catalog}
use rpc_freethread.Runtime.Queues.{update-OnlyMethods}
use rpc_freethread.Runtime.Calm.{Calm, Calm-refl, Calm-trans, IsCalm, calm_rules}
use rpc_freethread.Runtime.Steps.{send_result-IsCalm, take_owned-Calm}
use rpc_freethread.Runtime.Operations.{report_failure-IsCalm}

-- What `_create_actor` does once the part under the lock has returned or raised.
abbrev settled :
    ⦃py : Python⦄ {U : Type 0} (ser : Serializer) (user : UserCode U) (conn : ℕ) (call_id : String)
    (actor : ActorEntry)
    → Result (Unit {0}) × Runtime U
    → Runtime U
settled {U = U} ser user conn call_id actor (v, r) =
    (elim v as (λ _. Result (Unit {0}) × Runtime U) [
      | ok _ ↦ send_result ser conn call_id nothing r
      | err exc ↦ (modify (cancel_executor actor) >> report_failure ser user conn call_id exc) r
    ]).1

module _ ⦃py : Python⦄ {U : Type 0} (ser : Serializer) (user : UserCode U) where
  insert_actor-cases :
      (conn : ℕ) (id : String) (actor : ActorEntry) (r : Runtime U)
      → ((e : Error) × (insert_actor ser user conn id actor r ≡ (err e, r)))
        ⊎ (((r.conns conn).closed ≡ false)
            × (insert_actor ser user conn id actor r
                ≡ (ok tt, record r { actors = put id actor r.actors })))
  unfolding insert_actor
  insert_actor-cases conn id actor r = elim (Bool-cases (r.conns conn).closed) [
    | inl h ↦
        inl (connection_closed_error "client disconnected during actor creation", ground arith)
    | inr h ↦ elim (Bool-cases (contains id r.actors)) [
      | inl k ↦ inl (value_error ("actor " <> (quoted id <> " already exists")), ground arith)
      | inr k ↦ inr (h, ground arith)
    ]
  ]

  failed-IsCalm :
      (conn : ℕ) (call_id : String) (actor : ActorEntry) (e : Error)
      → IsCalm (modify (cancel_executor actor) >> report_failure ser user conn call_id e)
  unfolding cancel_executor
  failed-IsCalm conn call_id actor e = record {
    at = λ r.
        Calm-trans
          (record {
            stays_closed = λ i h. h;
            none_added = λ i x h. h;
            keeps_next = refl;
            stays_down = λ h. h;
            keeps_methods = λ h. update-OnlyMethods r.executors actor.executor shut_down h tt;
          })
          ((report_failure-IsCalm ser user conn call_id e).at (record r {
            executors = update r.executors actor.executor (record { queue = []; is_shut = true });
          }));
  }

  -- `_create_actor` adds its actor only if the connection is not closed at that moment.
  pub settle_actor-cases :
      (conn : ℕ) (call_id id : String) (actor : ActorEntry) (r : Runtime U)
      → Calm r (settle_actor ser user conn call_id id actor r).1
        ⊎ (((r.conns conn).closed ≡ false)
            × Calm
                (record r { actors = put id actor r.actors })
                (settle_actor ser user conn call_id id actor r).1)
  unfolding settle_actor
  settle_actor-cases conn call_id id actor r = elim (insert_actor-cases conn id actor r) [
    | inl (e, h) ↦ inl (
        subst (λ p. Calm r (settled ser user conn call_id actor p)) (sym h)
          ((failed-IsCalm conn call_id actor e).at r))
    | inr (h, k) ↦ inr (
      h,
      let r' = record r { actors = put id actor r.actors } in
          subst (λ p. Calm r' (settled ser user conn call_id actor p)) (sym k)
            ((send_result-IsCalm ser conn call_id nothing).at r'),
    )
  ]

  owner_after :
      {A : Type 0} (m : Exec (Runtime U) A) (f : A → Exec (Runtime U) ActorEntry) (conn : ℕ)
      (kf : (a : A) (r s : Runtime U) (b : ActorEntry) → f a r ≡ (ok b, s) → b.owner ≡ conn)
      (r s : Runtime U) (b : ActorEntry)
      → (m >>= f) r ≡ (ok b, s)
      → b.owner ≡ conn
  owner_after m f conn kf r s b h = let (a, t, _, k) = >>=-eq-ok m f r h in kf a t s b k

  new_entry-owner :
      (i conn : ℕ) (r s : Runtime U) (b : ActorEntry)
      → new_entry ser user i conn r ≡ (ok b, s)
      → b.owner ≡ conn
  unfolding new_entry
  new_entry-owner i conn r s b h = ground arith

  pub construct_actor-owner :
      (conn : ℕ) (name : String) (args : Items) (kwargs : Fields) (r s : Runtime U) (a : ActorEntry)
      → construct_actor ser user conn name args kwargs r ≡ (ok a, s)
      → a.owner ≡ conn
  unfolding construct_actor
  construct_actor-owner conn name args kwargs r s a h =
      owner_after (gets (λ r. r.registry)) _ conn
        (λ registry. owner_after (lift (get_class name registry)) _ conn (λ actor_class.
          owner_after (on_world (user.construct actor_class args kwargs)) _ conn
            (λ instance_id. new_entry-owner instance_id conn)))
        r s a h

module _ {U : Type 0} where
  pub shut_connections-Calm : (l : List ℕ) (r : Runtime U) → Calm r (shut_connections l r)
  unfolding shut_connections
  shut_connections-Calm [] r = Calm-refl r
  shut_connections-Calm (i ∷ l) r =
      Calm-trans
        (record {
          stays_closed = λ j h. ground arith;
          none_added = λ id e h. h;
          keeps_next = refl;
          stays_down = λ h. h;
          keeps_methods = λ h. h;
        })
        (shut_connections-Calm l _)

  pub leave-Calm : (conn : ℕ) (r : Runtime U) → Calm r (leave conn r)
  unfolding leave
  leave-Calm conn r = record {
    stays_closed = λ j h. ground arith;
    none_added = λ id e h. h;
    keeps_next = refl;
    stays_down = λ h. h;
    keeps_methods = λ h. h;
  }

  pub send_catalog-IsCalm :
      ⦃py : Python⦄ (ser : Serializer) (conn : ℕ) → IsCalm {U = U} (send_catalog ser conn)
  unfolding send_catalog
  send_catalog-IsCalm ser conn = search calm_rules depth 8

remove_all-none :
    (ids : List String) (d : Dict ActorEntry) (id : String)
    → get id d ≡ none
    → get id (remove_all ids d) ≡ none
unfolding remove_all
remove_all-none [] d id h = h
remove_all-none (j ∷ ids) d id h =
    remove_all-none ids (remove j d) id (ground (arith, get-remove j id d))

remove_all-Among :
    (ids : List String) (d : Dict ActorEntry) (id : String)
    → Among id ids
    → get id (remove_all ids d) ≡ none
unfolding remove_all
remove_all-Among [] d id h = elim h [ ]
remove_all-Among (j ∷ ids) d id here =
    remove_all-none ids (remove j d) j (ground (arith, get-remove j j d, eq_iff j j))
remove_all-Among (j ∷ ids) d id (there a) = remove_all-Among ids (remove j d) id a

Among-skip :
    (b : Bool) (j k : String) (l : List String) → Among k l → Among k (if b then j ∷ l else l)
Among-skip true j k l h = there h
Among-skip false j k l h = h

Among-here :
    (b : Bool) (j k : String) (l : List String)
    → b ≡ true
    → j ≡ k
    → Among k (if b then j ∷ l else l)
Among-here true j k l h p = subst (λ i. Among i (j ∷ l)) p here
Among-here false j k l h p = absurd cc

owned_ids-Among :
    (conn : ℕ) (d : Dict ActorEntry) (id : String) (e : ActorEntry)
    → get id d ≡ some e
    → e.owner ≡ conn
    → Among id (owned_ids conn d)
unfolding owned_ids get
owned_ids-Among conn [] id e h k = absurd cc
owned_ids-Among conn ((j, a) ∷ d) id e h k = elim (Bool-cases (str_eq j id)) [
  | inl p ↦ Among-here (a.owner == conn) j id _ (ground arith) (ground (arith, eq_iff j id))
  | inr p ↦ Among-skip (a.owner == conn) j id _ (owned_ids-Among conn d id e (ground arith) k)
]

-- Once a connection's actors were taken, none of the table belongs to it.
pub take_owned-owner :
    {U : Type 0} (conn : ℕ) (r : Runtime U) (id : String) (e : ActorEntry)
    → get id (take_owned conn r).actors ≡ some e
    → e.owner ≢ conn
take_owned-owner conn r id e h k =
    let before = (take_owned-Calm conn r).none_added id e h in
    let gone =
      remove_all-Among (owned_ids conn r.actors) r.actors id
        (owned_ids-Among conn r.actors id e before k) in
    absurd cc
