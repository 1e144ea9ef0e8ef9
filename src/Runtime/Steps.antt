-- ===== src/Runtime/Steps.antt =====
-- Responses, the handling of messages and the removal of actors are calm.
use rpc_freethread.Prelude.{ℕ, String, ◌≡◌, refl, ◌∙◌, Option, none, some, List, [], ◌∷◌, arith}
use rpc_freethread.Prelude.Dict.{Dict, get, remove, get-remove}
use rpc_freethread.Errors.{Error, err}
use rpc_freethread.Value.{Value, nothing, mapping, Items, Fields, field_or}
use rpc_freethread.Python.{Python}
use rpc_freethread.Serializer.{Serializer}
use rpc_freethread.Runtime.State.{Runtime, ActorEntry, abort_connection}
use rpc_freethread.Runtime.Respond.{
  encode_response, send_response, send_result, send_error, result_message, error_message,
}
use rpc_freethread.Runtime.Messages.{
  handle_message, dispatch, handle_function_call, handle_actor_create, handle_actor_call,
  handle_actor_attach, handle_actor_destroy, route_method,
}
use rpc_freethread.Runtime.Actors.{
  cancel_executor, cancel_all, remove_all, owned_ids, owned_actors, take_owned,
  remove_connection_actors,
}
use rpc_freethread.Runtime.Queues.{cancel_all-OnlyMethods, cancel_all-pool}
use rpc_freethread.Runtime.Calm.{Calm, IsCalm, Calm-abort, calm_rules}

module _ {U : Type 0} (ser : Serializer) where
  abort-IsCalm :
      {A : Type 0} (conn : ℕ) (e : Error)
      → IsCalm {U = U} {A = A} (λ r. (err e, abort_connection conn r))
  abort-IsCalm conn e = record { at = Calm-abort conn }

  encode_response-IsCalm :
      (conn : ℕ) (call_id : String) (response : Fields)
      → IsCalm {U = U} (encode_response ser conn call_id response)
  unfolding encode_response
  encode_response-IsCalm conn call_id response = search (calm_rules, abort-IsCalm)

  pub send_response-IsCalm :
      (conn : ℕ) (call_id : String) (response : Fields)
      → IsCalm {U = U} (send_response ser conn call_id response)
  unfolding send_response
  send_response-IsCalm conn call_id response =
      search (calm_rules, abort-IsCalm, encode_response-IsCalm)

  pub send_result-IsCalm :
      (conn : ℕ) (call_id : String) (v : Value) → IsCalm {U = U} (send_result ser conn call_id v)
  unfolding send_result
  send_result-IsCalm conn call_id v = send_response-IsCalm conn call_id (result_message call_id v)

  pub send_error-IsCalm :
      (conn : ℕ) (call_id : String) (e : Error) → IsCalm {U = U} (send_error ser conn call_id e)
  unfolding send_error
  send_error-IsCalm conn call_id e = send_response-IsCalm conn call_id (error_message call_id e)

module _ ⦃py : Python⦄ {U : Type 0} where
  route_method-IsCalm :
      (conn : ℕ) (call_id actor_id name : String) (args : Items) (kwargs : Fields)
      (o : Option ActorEntry)
      → IsCalm {U = U} (route_method conn call_id actor_id name args kwargs o)
  route_method-IsCalm conn call_id actor_id name args kwargs none = search calm_rules
  route_method-IsCalm conn call_id actor_id name args kwargs (some actor) = search calm_rules

  dispatch-IsCalm : (conn : ℕ) (m : Fields) (kind : Value) → IsCalm {U = U} (dispatch conn m kind)
  unfolding dispatch handle_function_call handle_actor_create handle_actor_call handle_actor_attach
      handle_actor_destroy
  dispatch-IsCalm conn m kind = search (calm_rules, route_method-IsCalm) depth 12

  pub handle_message-IsCalm : (conn : ℕ) (v : Value) → IsCalm {U = U} (handle_message conn v)
  unfolding handle_message
  handle_message-IsCalm conn (mapping m) = dispatch-IsCalm conn m (field_or nothing "type" m)
  handle_message-IsCalm conn _ = search calm_rules

remove_all-get :
    (ids : List String) (d : Dict ActorEntry) (id : String) (e : ActorEntry)
    → get id (remove_all ids d) ≡ some e
    → get id d ≡ some e
unfolding remove_all
remove_all-get [] d id e h = h
remove_all-get (j ∷ ids) d id e h =
    ground (arith, remove_all-get ids (remove j d) id e h, get-remove j id d)

module _ {U : Type 0} where
  pub cancel_all-actors :
      (l : List ActorEntry) (r : Runtime U)
      → ((cancel_all l r).actors ≡ r.actors)
        × ((cancel_all l r).conns ≡ r.conns)
        × ((cancel_all l r).next_conn ≡ r.next_conn)
  unfolding cancel_all
  cancel_all-actors [] r = (refl, refl, refl)
  cancel_all-actors (a ∷ l) r = cancel_all-actors l (cancel_executor a r)

  pub take_owned-Calm : (conn : ℕ) (r : Runtime U) → Calm r (take_owned conn r)
  take_owned-Calm conn r = record {
    stays_closed = λ i h. h;
    none_added = λ id e h. remove_all-get (owned_ids conn r.actors) r.actors id e h;
    keeps_next = refl;
    stays_down = λ h. h;
    keeps_methods = λ h. h;
  }

  pub remove_connection_actors-Calm :
      (conn : ℕ) (r : Runtime U) → Calm r (remove_connection_actors conn r)
  unfolding remove_connection_actors
  remove_connection_actors-Calm conn r =
      let r' = record r { actors = remove_all (owned_ids conn r.actors) r.actors } in
      let (table, links, next) = cancel_all-actors (owned_actors conn r.actors) r' in
      record {
        stays_closed = λ i h. rw links h;
        none_added =
            λ id e h. remove_all-get (owned_ids conn r.actors) r.actors id e (rw table at h);
        keeps_next = next;
        stays_down = λ h. cancel_all-pool (owned_actors conn r.actors) r' ∙ h;
        keeps_methods = cancel_all-OnlyMethods (owned_actors conn r.actors) r';
      }
