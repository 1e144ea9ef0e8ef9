-- ===== src/Runtime/Owned.antt =====
-- Which actors `_remove_connection_actors` takes from the table.
use rpc_freethread.Prelude.{
  ℕ, String, true, false, ◌≡◌, refl, List, [], ◌∷◌, arith, Among, here, there, Bool-cases, inl, inr,
  ◌==◌, Bool, ◌⊎◌, if◌then◌else◌, str_eq, eq_iff,
}
use rpc_freethread.Prelude.Dict.{Dict, remove}
use rpc_freethread.Runtime.State.{ActorEntry}
use rpc_freethread.Runtime.Actors.{owned_ids, remove_all}

-- Every entry of the connection is under one of the names.
Listed : ℕ → List String → Dict ActorEntry → Type 0
Listed conn ids [] = Unit
Listed conn ids ((k, a) ∷ d) = (((a.owner == conn) ≡ false) ⊎ Among k ids) × Listed conn ids d

Listed-more :
    (conn : ℕ) (j : String) (ids : List String) (d : Dict ActorEntry)
    → Listed conn ids d
    → Listed conn (j ∷ ids) d
unfolding Listed
Listed-more conn j ids [] h = tt
Listed-more conn j ids ((k, a) ∷ d) (inl o, h) = (inl o, Listed-more conn j ids d h)
Listed-more conn j ids ((k, a) ∷ d) (inr m, h) = (inr (there m), Listed-more conn j ids d h)

Listed-choice :
    (conn : ℕ) (b : Bool) (j : String) (ids : List String) (d : Dict ActorEntry)
    → Listed conn ids d
    → Listed conn (if b then j ∷ ids else ids) d
Listed-choice conn true j ids d h = Listed-more conn j ids d h
Listed-choice conn false j ids d h = h

owned_ids-Listed : (conn : ℕ) (d : Dict ActorEntry) → Listed conn (owned_ids conn d) d
unfolding owned_ids Listed
owned_ids-Listed conn [] = tt
owned_ids-Listed conn ((k, a) ∷ d) = (
  elim (Bool-cases (a.owner == conn)) [ inr o ↦ inl o | inl o ↦ inr (rw o here) ],
  Listed-choice conn (a.owner == conn) k (owned_ids conn d) d (owned_ids-Listed conn d),
)

Among-tail :
    (k j : String) (ids : List String) → Among k (j ∷ ids) → str_eq k j ≡ false → Among k ids
Among-tail k _ ids here n = absurd (ground (arith, eq_iff k k))
Among-tail k j ids (there m) n = m

remove-Listed :
    (conn : ℕ) (j : String) (ids : List String) (d : Dict ActorEntry)
    → Listed conn (j ∷ ids) d
    → Listed conn ids (remove j d)
unfolding Listed remove
remove-Listed conn j ids [] h = tt
remove-Listed conn j ids ((k, a) ∷ d) (h, hs) =
    let rest = remove-Listed conn j ids d hs in
    elim (Bool-cases (str_eq k j)) [
      | inl e ↦ rw e rest
      | inr n ↦ rw n (elim h [ inl o ↦ inl o | inr m ↦ inr (Among-tail k j ids m n) ], rest)
    ]

remove_all-Listed :
    (conn : ℕ) (ids : List String) (d : Dict ActorEntry)
    → Listed conn ids d
    → owned_ids conn (remove_all ids d) ≡ []
unfolding Listed remove_all owned_ids
remove_all-Listed conn [] [] h = refl
remove_all-Listed conn [] ((k, a) ∷ d) (inl o, h) = ground (arith, remove_all-Listed conn [] d h)
remove_all-Listed conn [] ((k, a) ∷ d) (inr m, h) = elim m [ ]
remove_all-Listed conn (j ∷ ids) d h =
    remove_all-Listed conn ids (remove j d) (remove-Listed conn j ids d h)

pub all_removed :
    (conn : ℕ) (d : Dict ActorEntry) → owned_ids conn (remove_all (owned_ids conn d) d) ≡ []
all_removed conn d = remove_all-Listed conn (owned_ids conn d) d (owned_ids-Listed conn d)
