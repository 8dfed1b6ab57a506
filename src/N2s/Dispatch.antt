-- ===== src/N2s/Dispatch.antt =====
-- Each datagram goes to the one session of its source.
use mathlib.Core.Path.{fun_ext, subst, subst₂}
use libn2t.Common.{
  ℕ, suc, ◌<◌, ◌≡◌, refl, sym, ap, ◌∙◌, ◌⊎◌, inl, inr, Bool, true, false, List, [], ◌∷◌, ◌++◌,
  Option, none, some, arith, All, All-append, Option-cases, Bool-cases, ◌==◌, ==_iff, if◌then◌else◌,
  Step,
}
use libn2t.Utils.Socks5.{AddressApi}
use libn2t.UdpSession.State.{UdpPacket, UdpSession, Net, Effect, new}
use libn2t.UdpSession
use libn2t.N2s.{
  N2s, Store, Call, udp_session, n2t_async_udp_recv, update, Found, search_sessions, on_udp,
}

-- The source for which a session was started, if it is still referenced.
abbrev pub source_of : Option UdpSession → Option UdpPacket
source_of none = none
source_of (some u) = some u.initial_packet

abbrev pub source_at : Store → ℕ → Option UdpPacket
source_at store id = source_of (store id)

-- The second session was not started for the source of the first.
abbrev pub Apart : Option UdpPacket → Option UdpPacket → Type 0
Apart (some p) (some q) = UdpSession.same_source q p ≡ false
Apart _ _ = Unit {0}

abbrev pub Distinct : (ℕ → Option UdpPacket) → List ℕ → Type 0
Distinct src [] = Unit {0}
Distinct src (id ∷ rest) = All (λ j. Apart (src id) (src j)) rest × Distinct src rest

-- The sessions in the list have numbers that were given out, and no two of those that are still
-- referenced were started for one source.
pub record IsRouted (s : N2s) : Type 0 where
  pub given : All (λ id. id < s.next_id) s.udp_sessions
  pub distinct : Distinct (source_at s.store) s.udp_sessions

-- The session is in the list.
abbrev pub IsListed : ℕ → List ℕ → Type 0
IsListed id [] = ⊥
IsListed id (j ∷ rest) = (id ≡ j) ⊎ IsListed id rest

IsListed-back : (id : ℕ) (ids : List ℕ) → IsListed id (ids ++ id ∷ [])
IsListed-back id [] = inl refl
IsListed-back id (j ∷ rest) = inr (IsListed-back id rest)

IsListed-front : (id : ℕ) (ids more : List ℕ) → IsListed id ids → IsListed id (ids ++ more)
IsListed-front id [] more h = absurd h
IsListed-front id (j ∷ rest) more (inl e) = inl e
IsListed-front id (j ∷ rest) more (inr h) = inr (IsListed-front id rest more h)

module _ (api : AddressApi) (net : Net) (packet : UdpPacket) (store : Store) where
  search_sessions-All :
      (P : ℕ → Type 0) (ids : List ℕ)
      → All P ids
      → All P (search_sessions api net packet store ids).sessions
  unfolding search_sessions
  search_sessions-All P [] h = tt
  search_sessions-All P (id ∷ rest) h = ground (arith, search_sessions-All P rest h.1)

  search_sessions-Distinct :
      (src : ℕ → Option UdpPacket) (ids : List ℕ)
      → Distinct src ids
      → Distinct src (search_sessions api net packet store ids).sessions
  unfolding search_sessions
  search_sessions-Distinct src [] h = tt
  search_sessions-Distinct src (id ∷ rest) h = ground (
    arith,
    search_sessions-Distinct src rest h.1,
    search_sessions-All (λ j. Apart (src id) (src j)) rest h.0,
  )

  -- One turn of the search, on the list.
  sessions-expired :
      (i : ℕ) (rest : List ℕ)
      → store i ≡ none
      → (search_sessions api net packet store (i ∷ rest)).sessions
        ≡ (search_sessions api net packet store rest).sessions
  unfolding search_sessions
  sessions-expired i rest e = ground arith

  sessions-took :
      (i : ℕ) (rest : List ℕ) (u : UdpSession)
      → store i ≡ some u
      → UdpSession.same_source packet u.initial_packet ≡ true
      → (search_sessions api net packet store (i ∷ rest)).sessions ≡ i ∷ rest
  unfolding search_sessions UdpSession.process
  sessions-took i rest u e took = ground arith

  sessions-other :
      (i : ℕ) (rest : List ℕ) (u : UdpSession)
      → store i ≡ some u
      → UdpSession.same_source packet u.initial_packet ≡ false
      → (search_sessions api net packet store (i ∷ rest)).sessions
        ≡ i ∷ (search_sessions api net packet store rest).sessions
  unfolding search_sessions UdpSession.process
  sessions-other i rest u e other = ground arith

  -- No session that is still referenced falls out of the list.
  search_sessions-keeps :
      (ids : List ℕ) (j : ℕ) (v : UdpSession)
      → store j ≡ some v
      → IsListed j ids
      → IsListed j (search_sessions api net packet store ids).sessions
  search_sessions-keeps [] j v live h = absurd h
  search_sessions-keeps (i ∷ rest) j v live h = elim (Option-cases (store i)) [
    | inl e ↦ elim h [
      | inl same ↦ absurd (ground (arith, ap store same))
      | inr later ↦
          subst (IsListed j) (sym (sessions-expired i rest e))
            (search_sessions-keeps rest j v live later)
    ]
    | inr (u, e) ↦ elim (Bool-cases (UdpSession.same_source packet u.initial_packet)) [
      | inl took ↦ subst (IsListed j) (sym (sessions-took i rest u e took)) h
      | inr other ↦ subst (IsListed j) (sym (sessions-other i rest u e other)) (elim h [
        | inl same ↦ inl same
        | inr later ↦ inr (search_sessions-keeps rest j v live later)
      ])
    ]
  ]

  search_sessions-IsListed :
      (ids : List ℕ) {id : ℕ} {step : Step UdpSession Effect}
      → (search_sessions api net packet store ids).taken ≡ some (id, step)
      → IsListed id ids
  unfolding search_sessions UdpSession.process
  search_sessions-IsListed [] h = ground arith
  search_sessions-IsListed (i ∷ rest) {step = step} h = elim (Option-cases (store i)) [
    | inl e ↦ inr (search_sessions-IsListed rest {step = step} (ground arith))
    | inr (u, e) ↦ elim (Bool-cases (UdpSession.same_source packet u.initial_packet)) [
      | inl same ↦ inl (ground arith)
      | inr other ↦ inr (search_sessions-IsListed rest {step = step} (ground arith))
    ]
  ]

  -- The session that takes the packet was started for its source.
  pub search_sessions-taken :
      (ids : List ℕ) {id : ℕ} {step : Step UdpSession Effect}
      → (search_sessions api net packet store ids).taken ≡ some (id, step)
      → (u : UdpSession) × (store id ≡ some u)
        × (UdpSession.same_source packet u.initial_packet ≡ true)
        × (step ≡ UdpSession.in_recv api net packet u)
  unfolding search_sessions UdpSession.process
  search_sessions-taken [] h = ground arith
  search_sessions-taken (i ∷ rest) h = elim (Option-cases (store i)) [
    | inl e ↦ search_sessions-taken rest (ground arith)
    | inr (u, e) ↦ elim (Bool-cases (UdpSession.same_source packet u.initial_packet)) [
      | inl same ↦ (u, ground arith, same, ground arith)
      | inr other ↦ search_sessions-taken rest (ground arith)
    ]
  ]

  -- If none takes it, no session that is still referenced was started for its source.
  pub search_sessions-none :
      (ids : List ℕ)
      → (search_sessions api net packet store ids).taken ≡ none
      → All (λ id. Apart (source_at store id) (some packet)) ids
  unfolding search_sessions UdpSession.process
  search_sessions-none [] h = tt
  search_sessions-none (i ∷ rest) h = ground (arith, search_sessions-none rest)

process-initial :
    (api : AddressApi) (net : Net) (p : UdpPacket) (u : UdpSession)
    → (UdpSession.in_recv api net p u).state.initial_packet ≡ u.initial_packet
process-initial api net p u = unfold UdpSession.in_recv in ground arith

update_hit :
    (store : Store) (id : ℕ) (v : UdpSession) (j : ℕ)
    → (id == j) ≡ true
    → update store id v j ≡ some v
update_hit store id v j e = rw e

update_miss :
    (store : Store) (id : ℕ) (v : UdpSession) (j : ℕ)
    → (id == j) ≡ false
    → update store id v j ≡ store j
update_miss store id v j e = rw e

-- A session that is updated keeps its source.
source_at-update :
    (store : Store) (id : ℕ) (u v : UdpSession)
    → store id ≡ some u
    → v.initial_packet ≡ u.initial_packet
    → source_at (update store id v) ≡ source_at store
source_at-update store id u v h k = fun_ext (λ j. same_at j)
  where
    same_at : (j : ℕ) → source_at (update store id v) j ≡ source_at store j
    same_at j = elim (Bool-cases (id == j)) [
      | inl e ↦
          ap source_of (update_hit store id v j e)
          ∙ ap some k
          ∙ sym (ap source_of (ap store (sym ((==_iff id j).0 e)) ∙ h))
      | inr e ↦ ap source_of (update_miss store id v j e)
    ]

All-map : (P Q : ℕ → Type 0) (ids : List ℕ) → ((j : ℕ) → P j → Q j) → All P ids → All Q ids
All-map P Q [] f h = tt
All-map P Q (id ∷ rest) f h = (f id h.0, All-map P Q rest f h.1)

All-both : (P Q : ℕ → Type 0) (ids : List ℕ) → All P ids → All Q ids → All (λ j. P j × Q j) ids
All-both P Q [] h k = tt
All-both P Q (id ∷ rest) h k = ((h.0, k.0), All-both P Q rest h.1 k.1)

source_at-fresh :
    (store : Store) (next : ℕ) (v : UdpSession) (j : ℕ)
    → j < next
    → source_at (update store next v) j ≡ source_at store j
source_at-fresh store next v j h = ap source_of (update_miss store next v j (ground arith))

source_at-next :
    (store : Store) (next : ℕ) (v : UdpSession)
    → source_at (update store next v) next ≡ some v.initial_packet
source_at-next store next v = ap source_of (update_hit store next v next (ground arith))

-- A new number hides no session.
Distinct-fresh :
    (store : Store) (next : ℕ) (v : UdpSession) (ids : List ℕ)
    → All (λ id. id < next) ids
    → Distinct (source_at store) ids
    → All (λ id. Apart (source_at store id) (some v.initial_packet)) ids
    → Distinct (source_at (update store next v)) (ids ++ next ∷ [])
Distinct-fresh store next v [] g d a = (tt, tt)
Distinct-fresh store next v (id ∷ rest) g d a = (
  All-append (λ j. Apart (source_at new_store id) (source_at new_store j)) rest (next ∷ [])
      (All-map (λ j. (j < next) × Apart (source_at store id) (source_at store j)) _ rest
        (λ j h.
          subst₂ Apart (sym (source_at-fresh store next v id g.0))
            (sym (source_at-fresh store next v j h.0)) h.1)
        (All-both (λ j. j < next) _ rest g.1 d.0))
      (
        subst₂ Apart (sym (source_at-fresh store next v id g.0)) (sym (source_at-next store next v))
            a.0,
        tt,
      ),
  Distinct-fresh store next v rest g.1 d.1 a.1,
)
  where
    new_store : Store
    new_store = update store next v

-- The next datagram is asked for unless an exception left the handler or the owner has stopped.
abbrev pub again : Bool → Bool → List Call
again thrown stopped = if thrown then [] else (if stopped then [] else n2t_async_udp_recv ∷ [])

module _ (api : AddressApi) (net : Net) (packet : UdpPacket) (s : N2s) where
  abbrev found : Found
  found = search_sessions api net packet s.store s.udp_sessions

  abbrev fresh : UdpSession
  fresh = new s.socks5_addr s.socks5_port packet

  start-initial : (UdpSession.start api fresh).state.initial_packet ≡ packet
  start-initial = unfold UdpSession.start new in ground arith

  on_udp-none :
      found.taken ≡ none
      → (on_udp api net packet s).state ≡ record s {
        udp_sessions = found.sessions ++ s.next_id ∷ [];
        next_id = suc s.next_id;
        store = update s.store s.next_id (UdpSession.start api fresh).state;
      }
  unfolding on_udp
  on_udp-none h = ground arith

  on_udp-some :
      {id : ℕ} {step : Step UdpSession Effect}
      → found.taken ≡ some (id, step)
      → (on_udp api net packet s).state
        ≡ record s { udp_sessions = found.sessions; store = update s.store id step.state }
  unfolding on_udp
  on_udp-some h = ground arith

  -- A datagram keeps it true that the listed sessions have numbers that were given out and that no
  -- two of those that are still referenced were started for one source, whether or not a handler
  -- throws.
  pub on_udp-IsRouted : IsRouted s → IsRouted (on_udp api net packet s).state
  on_udp-IsRouted h = elim (Option-cases found.taken) [
    | inl none_took ↦ rw (on_udp-none none_took) (record {
      given =
          All-append (λ j. j < suc s.next_id) found.sessions (s.next_id ∷ [])
            (search_sessions-All api net packet s.store (λ j. j < suc s.next_id) s.udp_sessions
              (All-map (λ j. j < s.next_id) (λ j. j < suc s.next_id) s.udp_sessions
                (λ j k. omega arith) h.given))
            (omega arith, tt);
      distinct =
          Distinct-fresh s.store s.next_id (UdpSession.start api fresh).state found.sessions
            (search_sessions-All api net packet s.store (λ j. j < s.next_id) s.udp_sessions h.given)
            (search_sessions-Distinct api net packet s.store (source_at s.store) s.udp_sessions
              h.distinct)
            (rw start-initial (
              search_sessions-All api net packet s.store
                (λ j. Apart (source_at s.store j) (some packet)) s.udp_sessions
                (search_sessions-none api net packet s.store s.udp_sessions none_took)));
    })
    | inr ((id, step), took) ↦ rw (on_udp-some took) (record {
      given =
          search_sessions-All api net packet s.store (λ j. j < s.next_id) s.udp_sessions h.given;
      distinct =
          (let (u, live, same, ran) =
              search_sessions-taken api net packet s.store s.udp_sessions took in
            rw
              (source_at-update s.store id u step.state live (
                ap (λ (t : Step UdpSession Effect). t.state.initial_packet) ran
                ∙ process-initial api net packet u))
              (search_sessions-Distinct api net packet s.store (source_at s.store) s.udp_sessions
                h.distinct));
    })
  ]

  -- No session that is listed and still referenced falls out of the list.
  abbrev pub Keeps : N2s → Type 0
  Keeps t =
      (j : ℕ) (v : UdpSession)
      → s.store j ≡ some v
      → IsListed j s.udp_sessions
      → IsListed j t.udp_sessions

  -- A datagram is given to a listed session that is still referenced and was started for its source, and
  -- to no other, and that session stays listed, with what became of it; only if no listed session is
  -- such a one, a session is started for it, which takes the datagram as its first one and is listed.
  -- Either way no other session changes, and none that is still referenced falls out of the list.
  pub on_udp_cases :
      Keeps (on_udp api net packet s).state
      × (((id : ℕ) × (u : UdpSession) × IsListed id s.udp_sessions
            × (s.store id ≡ some u)
            × (UdpSession.same_source packet u.initial_packet ≡ true)
            × IsListed id (on_udp api net packet s).state.udp_sessions
            × ((on_udp api net packet s).state.store
                ≡ update s.store id (UdpSession.in_recv api net packet u).state)
            × ((on_udp api net packet s).effects
                ≡ udp_session id (UdpSession.in_recv api net packet u).effects
                  ∷ again (UdpSession.in_recv api net packet u).thrown s.stopped))
          ⊎ (All (λ j. Apart (source_at s.store j) (some packet)) s.udp_sessions
              × IsListed s.next_id (on_udp api net packet s).state.udp_sessions
              × ((on_udp api net packet s).state.store
                  ≡ update s.store s.next_id (UdpSession.start api fresh).state)
              × ((on_udp api net packet s).effects
                  ≡ udp_session s.next_id (UdpSession.start api fresh).effects
                    ∷ again (UdpSession.start api fresh).thrown s.stopped)))
  on_udp_cases = elim (Option-cases found.taken) [
    | inl none_took ↦ (
      (λ j v live listed. rw (on_udp-none none_took) (
          IsListed-front j found.sessions (s.next_id ∷ [])
            (search_sessions-keeps api net packet s.store s.udp_sessions j v live listed))),
      inr (
        search_sessions-none api net packet s.store s.udp_sessions none_took,
        rw (on_udp-none none_took) (IsListed-back s.next_id found.sessions),
        rw (on_udp-none none_took) refl,
        unfold on_udp in ground arith,
      ),
    )
    | inr ((id, step), took) ↦
        let (u, live, same, ran) =
          search_sessions-taken api net packet s.store s.udp_sessions took in
        let listed = search_sessions-IsListed api net packet s.store s.udp_sessions took in
        (
          (λ j v there l.
              rw (on_udp-some took)
                (search_sessions-keeps api net packet s.store s.udp_sessions j v there l)),
          inl (
            id,
            u,
            listed,
            live,
            same,
            rw (on_udp-some took)
                (search_sessions-keeps api net packet s.store s.udp_sessions id u live listed),
            rw (on_udp-some took)
                (ap (λ (t : Step UdpSession Effect). update s.store id t.state) ran),
            unfold on_udp in ground arith,
          ),
        )
  ]
