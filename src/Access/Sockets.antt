-- ===== src/Access/Sockets.antt =====
-- The sockets that a refresh leaves.
use synch_api.Prelude.{
  ℕ, ◌≡◌, inl, inr, refl, sym, ap, subst, if◌then◌else◌, String, Bool, true, false, none, List, [],
  ◌∷◌, arith, Bool-cases, Option-cases, All, All-mono, is_some, same, same_self,
}
use synch_api.Access.Revocations.{Revocation}
use synch_api.Access.Service.{
  Access, SyncAccessSnapshot, Connection, denial, cache_of, close_socket, close_denied_from,
  close_denied_sockets, refresh,
}

All-close_socket :
    (P : Connection → Type 0) (id : String) (cs : List Connection)
    → All P cs
    → All P (close_socket id cs)
All-close_socket P id [] h = tt
All-close_socket P id (c ∷ cs) h = elim (Bool-cases (same c.connection_id id)) [
  | inl this ↦ rw this (All-close_socket P id cs h.1)
  | inr other ↦ rw other (h.0, All-close_socket P id cs h.1)
]

abbrev Apart : Connection → Connection → Type 0
Apart c x = same x.connection_id c.connection_id ≡ false

close_socket-Apart :
    (c : Connection) (cs : List Connection) → All (Apart c) (close_socket c.connection_id cs)
close_socket-Apart c [] = tt
close_socket-Apart c (x ∷ xs) = elim (Bool-cases (same x.connection_id c.connection_id)) [
  | inl this ↦ rw this (close_socket-Apart c xs)
  | inr other ↦ rw other (other, close_socket-Apart c xs)
]

module _ (rs : List Revocation) where
  abbrev Denied : Connection → Type 0
  Denied c = is_some (denial rs c.user_id c.access_version) ≡ true

  All-close_denied_from :
      (P : Connection → Type 0) (cs sockets : List Connection)
      → All P sockets
      → All P (close_denied_from rs cs sockets)
  unfolding close_denied_from
  All-close_denied_from P [] sockets h = h
  All-close_denied_from P (c ∷ cs) sockets h =
      elim (Bool-cases (is_some (denial rs c.user_id c.access_version))) [
        | inl denied ↦ rw denied (
            All-close_denied_from P cs (close_socket c.connection_id sockets)
              (All-close_socket P c.connection_id sockets h))
        | inr free ↦ rw free (All-close_denied_from P cs sockets h)
      ]

  -- No socket has the id of one that was denied.
  close_denied_from-Apart :
      (cs sockets : List Connection)
      → All (λ c. Denied c → All (Apart c) (close_denied_from rs cs sockets)) cs
  unfolding close_denied_from
  close_denied_from-Apart [] sockets = tt
  close_denied_from-Apart (c ∷ cs) sockets =
      elim (Bool-cases (is_some (denial rs c.user_id c.access_version))) [
        | inl denied ↦
            let closed = close_socket c.connection_id sockets in
            subst (λ (l : List Connection). All (λ x. Denied x → All (Apart x) l) (c ∷ cs))
              (sym
                (ap (λ (b : Bool). close_denied_from rs cs (if b then closed else sockets)) denied))
              (
                (λ p. All-close_denied_from (Apart c) cs closed (close_socket-Apart c sockets)),
                close_denied_from-Apart cs closed,
              )
        | inr free ↦
            let closed = close_socket c.connection_id sockets in
            subst (λ (l : List Connection). All (λ x. Denied x → All (Apart x) l) (c ∷ cs))
              (sym
                (ap (λ (b : Bool). close_denied_from rs cs (if b then closed else sockets)) free))
              ((λ p. absurd (ground arith)), close_denied_from-Apart cs sockets)
      ]

All-diagonal :
    (D : Connection → Type 0) (R : Connection → Connection → Type 0) (xs : List Connection)
    → All (λ x. D x → All (R x) xs) xs
    → All (λ x. D x → R x x) xs
All-diagonal D R [] h = tt
All-diagonal D R (x ∷ xs) h =
    ((λ d. (h.0 d).0), All-diagonal D R xs (All-mono xs (λ y f d. (f d).1) h.1))

-- After a refresh that is not cut short, no socket is open whose session the service would refuse.
pub refresh-Allowed :
    (lifetime now : ℕ) (snapshot : SyncAccessSnapshot) (s : Access) (sockets : List Connection)
    → All
        (λ (c : Connection).
          denial
            (cache_of (refresh lifetime now none snapshot s sockets).0)
            c.user_id
            c.access_version
          ≡ none)
        (refresh lifetime now none snapshot s sockets).1
unfolding refresh close_denied_sockets
refresh-Allowed lifetime now snapshot s sockets =
    let rs = cache_of (refresh lifetime now none snapshot s sockets).0 in
    let left = close_denied_sockets rs sockets in
    All-mono left (λ c f. allowed (cache_of (refresh lifetime now none snapshot s sockets).0) c f)
      (All-diagonal (Denied rs) Apart left (
        All-close_denied_from rs (λ c. Denied rs c → All (Apart c) left) sockets sockets
          (close_denied_from-Apart rs sockets sockets)))
  where
    allowed :
        (rs : List Revocation) (c : Connection)
        → (Denied rs c → Apart c c)
        → denial rs c.user_id c.access_version ≡ none
    allowed rs c f = elim (Option-cases (denial rs c.user_id c.access_version)) [
      | inl free ↦ free
      | inr (d, denied) ↦ absurd (ground (arith, f (rw denied refl), same_self c.connection_id))
    ]
