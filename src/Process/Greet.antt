-- ===== src/Process/Greet.antt =====
-- add_new_neighbour: the hello that is sent to each address, and the neighbours that it adds.
use s6_projet_reseau.Common.{
  ℕ, ◌^◌, ◌<◌, ◌≡◌, ◌≢◌, refl, sym, ◌∙◌, true, false, Option, none, some, List, [], ◌∷◌, map, All,
  All-mono, arith,
}
use s6_projet_reseau.Common.Run
use s6_projet_reseau.Common.Run.{Run, ok, Returns, returns}
use s6_projet_reseau.Wire.Types.{Sockaddr}
use s6_projet_reseau.Wire.Sbuff.{Sbuff, IsSbuff}
use s6_projet_reseau.Wire.Make.{new_tlv_hello}
use s6_projet_reseau.Wire.Make.Plain.{new_tlv_hello-IsPlain}
use s6_projet_reseau.Wire.RoundTrip.{datagram}
use s6_projet_reseau.Connect.{Handlers}
use s6_projet_reseau.Connect.Dispatch.{Acts}
use s6_projet_reseau.Connect.Sent.{udp_send-sent, single_msg-IsWritten}
use s6_projet_reseau.Neighbours.{
  NeighbourEntry, Key, IsMapLib, new_neighbour_entry, entry_key, map_add_neighbour_entry,
}
use s6_projet_reseau.Shared.{no_locks, Env, App, lock, unlock, cur_of, get_cur_neighbours}
use s6_projet_reseau.Threads.{Event, event_locks, serve, rev_onto}
use s6_projet_reseau.Process.{add_entry, greet, greet_all, add_new_neighbour}

-- One datagram to each peer, the last one in front.
abbrev pub sent_to_all :
    List ℕ → List Sockaddr → List (Sockaddr × List ℕ) → List (Sockaddr × List ℕ)
sent_to_all text [] sent = sent
sent_to_all text (p ∷ ps) sent = sent_to_all text ps ((p, text) ∷ sent)

module _ {M D : Type 0} (env : Env M D) where
  -- The key that the entry of a peer is stored under.
  abbrev pub peer_key : Sockaddr → Key
  peer_key p = entry_key env.nbr_lib env.machine.order env.decimal (new_neighbour_entry p)

  -- Peers with different keys, none of which is in the map.
  abbrev pub AreNew : M → List Sockaddr → Type 0
  AreNew m [] = Unit
  AreNew m (p ∷ ps) =
      (env.nbr_lib.map_get m (peer_key p) ≡ none)
      × All (λ q. peer_key q ≢ peer_key p) ps
      × AreNew m ps

  add_entry-new :
      (m : M) (p : Sockaddr)
      → env.nbr_lib.map_get m (peer_key p) ≡ none
      → add_entry env m (new_neighbour_entry p)
        ≡ ok (1, env.nbr_lib.map_set m (peer_key p) (some (new_neighbour_entry p)))
  unfolding map_add_neighbour_entry
  add_entry-new m p e = rw (e, map_add_neighbour_entry) refl

  AreNew-set :
      (laws : IsMapLib env.nbr_lib) (m : M) (p : Sockaddr) (v : Option NeighbourEntry)
      (ps : List Sockaddr)
      → All (λ q. peer_key q ≢ peer_key p) ps
      → AreNew m ps
      → AreNew (env.nbr_lib.map_set m (peer_key p) v) ps
  AreNew-set laws m p v [] apart new = tt
  AreNew-set laws m p v (q ∷ ps) apart new = (
    laws.get-set_ne m (peer_key p) (peer_key q) v apart.0 ∙ new.0,
    new.1,
    AreNew-set laws m p v ps apart.1 new.2,
  )

  -- What the loop over the addresses leaves of the state `s`.
  pub record AreGreeted (s : App M D) (text : List ℕ) (ps : List Sockaddr) (s' : App M D)
      : Type 0 where
    pub added :
        All
          (λ p.
            env.nbr_lib.map_get (cur_of env s') (peer_key p) ≡ some (some (new_neighbour_entry p)))
          ps
    pub others :
        (k : Key)
        → All (λ p. k ≢ peer_key p) ps
        → env.nbr_lib.map_get (cur_of env s') k ≡ env.nbr_lib.map_get (cur_of env s) k
    pub sent : s'.net.sent ≡ sent_to_all text ps s.net.sent
    pub unlocked : s'.locks ≡ no_locks
    pub traced : s'.trace ≡ rev_onto (serve (map (λ p. Event.greeted) ps)) s.trace

  greet-new :
      (sb : Sbuff) (p : Sockaddr) (s : App M D)
      → IsSbuff sb
      → s.net.is_open ≡ true
      → ((text : List ℕ) → env.accepts p text ≡ true)
      → env.nbr_lib.map_get (cur_of env s) (peer_key p) ≡ none
      → s.locks ≡ no_locks
      → greet env sb p s
        ≡ ok (
          tt,
          record s {
            g_cur_neighbours =
                some
                  (env.nbr_lib.map_set (cur_of env s) (peer_key p) (some (new_neighbour_entry p)));
            locks = no_locks;
            trace = rev_onto (event_locks Event.greeted) s.trace;
            net = record s.net { sent = (p, datagram sb) ∷ s.net.sent };
          },
        )
  unfolding greet get_cur_neighbours lock unlock
  greet-new sb p s valid is_open accepted absent free =
      rw
        (
          udp_send-sent env.accepts p s.net is_open accepted sb valid,
          free,
          add_entry-new (cur_of env s) p absent,
        )
        refl

  greet_all-new :
      (laws : IsMapLib env.nbr_lib) (sb : Sbuff) (ps : List Sockaddr) (s : App M D)
      → IsSbuff sb
      → s.net.is_open ≡ true
      → ((p : Sockaddr) (text : List ℕ) → env.accepts p text ≡ true)
      → AreNew (cur_of env s) ps
      → s.locks ≡ no_locks
      → Returns (λ r. AreGreeted s (datagram sb) ps r.1) (greet_all env sb ps s)
  unfolding greet_all
  greet_all-new laws sb [] s valid is_open accepted new free =
      returns
        (record { added = tt; others = λ k _. refl; sent = refl; unlocked = free; traced = refl })
  greet_all-new laws sb (p ∷ ps) s valid is_open accepted new free =
      let m = cur_of env s in
      let v : Option NeighbourEntry = some (new_neighbour_entry p) in
      let s' : App M D = record s {
        g_cur_neighbours = some (env.nbr_lib.map_set m (peer_key p) v);
        locks = no_locks;
        trace = rev_onto (event_locks Event.greeted) s.trace;
        net = record s.net { sent = (p, datagram sb) ∷ s.net.sent };
      } in
      let rest =
        greet_all-new laws sb ps s' valid is_open accepted (AreNew-set laws m p v ps new.1 new.2)
          refl in
      rw (greet-new sb p s valid is_open (accepted p) new.0 free) (
        Run.mono rest λ r g. record {
          added =
              (g.others (peer_key p) (apart p ps new.1) ∙ laws.get-set m (peer_key p) v, g.added);
          others = λ k ne. g.others k ne.1 ∙ laws.get-set_ne m (peer_key p) k v ne.0;
          sent = g.sent;
          unlocked = g.unlocked;
          traced = g.traced;
        })
    where
      apart :
          (p : Sockaddr) (ps : List Sockaddr)
          → All (λ q. peer_key q ≢ peer_key p) ps
          → All (λ q. peer_key p ≢ peer_key q) ps
      apart p ps h = All-mono (λ q ne e. ne (sym e)) ps h

  -- add_new_neighbour with no mutex held, over an open socket that accepts all, of a host with the
  -- addresses `ps` whose keys differ and are not in the map of current neighbours. Each address gets
  -- the same datagram, of which any receiver calls process_hello with a short hello of the program's
  -- identifier; the entry of each is in the map under its key; the other entries are as they were, and
  -- no mutex is held. The thread took and released the mutexes in the order of the events of Threads.
  pub add_new_neighbour-greets :
      {S : Type 0} (handlers : Handlers S) (host port : List ℕ) (ps : List Sockaddr) (s : App M D)
      → IsMapLib env.nbr_lib
      → env.getaddrinfo host port ≡ some ps
      → s.net.is_open ≡ true
      → ((p : Sockaddr) (text : List ℕ) → env.accepts p text ≡ true)
      → env.client_id < 2 ^ 64
      → AreNew (cur_of env s) ps
      → s.locks ≡ no_locks
      → (text : List ℕ) × Returns
          (λ r. AreGreeted s text ps r.1)
          (add_new_neighbour env host port s)
        × Acts handlers text (
            handlers.process_hello
              (record { is_long = false; source_id = env.client_id; dest_id = 0 }))
  unfolding add_new_neighbour new_tlv_hello
  add_new_neighbour-greets handlers host port ps s laws resolved is_open accepted own new free =
      let t = new_tlv_hello false env.client_id 0 in
      let (sb, single) =
        single_msg-IsWritten handlers env.machine t
          (new_tlv_hello-IsPlain false env.client_id 0 own (omega arith)) in
      (
        datagram sb,
        rw (resolved, add_new_neighbour, single.made, single.written)
            (greet_all-new laws sb ps s single.valid is_open accepted new free),
        single.acts,
      )
