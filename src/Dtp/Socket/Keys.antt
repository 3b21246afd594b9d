-- ===== src/Dtp/Socket/Keys.antt =====
-- The two steps of the lookup table and the slab of dtp/src/dtp.rs: a channel gets a key, and the queue
-- under a key changes.
use efcp.Prelude.{
  ℕ, ◌≡◌, ◌≢◌, ◌⊎◌, inl, inr, refl, sym, ap, ◌∙◌, true, false, [], Option, none, some, Bool-cases,
  Option-cases,
}
use efcp.Outcome.{ok}
use efcp.Dtp.Socket.Key.{Channel, chan_eq, chan_eq_refl, chan_eq→eq}
use efcp.Dtp.Socket.Defs.{Crates, InnerDtpSocket, update, connection_id}
use efcp.Dtp.Socket.Mux.{Mux}
use efcp.Dtp.Socket.Simulation.{contents, Shows}

pub same_or_not : (x ch : Channel) → (x ≡ ch) ⊎ ((x ≢ ch) × (chan_eq x ch ≡ false))
same_or_not x ch = elim (Bool-cases (chan_eq x ch)) [
  | inl e ↦ inl (chan_eq→eq x ch e)
  | inr e ↦ inr (λ same. let yes : chan_eq x ch ≡ true = rw same (chan_eq_refl ch) in cc, e)
]

pub update_self : {A : Type 0} (ch : Channel) (a : A) (m : Channel → A) → update ch a m ch ≡ a
unfolding update
update_self ch a m = rw (chan_eq_refl ch)

pub update_same :
    {A : Type 0} (ch x : Channel) (a : A) (m : Channel → A) → x ≡ ch → update ch a m x ≡ a
update_same ch x a m same = rw same (update_self ch a m)

pub update_other :
    {A : Type 0} (ch x : Channel) (a : A) (m : Channel → A)
    → chan_eq x ch ≡ false
    → update ch a m x ≡ m x
unfolding update
update_other ch x a m e = rw e

module _ (c : Crates) where
  contents-insert :
      (conns : c.slab.Store) (q : c.packets.Queue) (o : Option ℕ)
      → ((k : ℕ) → o ≡ some k → (r : c.packets.Queue) × (c.slab.get conns k ≡ some r))
      → contents c (c.slab.insert conns q).1 o ≡ contents c conns o
  contents-insert conns q none h = refl
  contents-insert conns q (some k) h =
      let (r, e) = h k refl in
      rw (
        contents,
        c.slab.get-insert_ne conns q k (λ same.
            let free = c.slab.get-insert_free conns q in
            let taken : c.slab.get conns (c.slab.insert conns q).0 ≡ some r = rw (← same) e in cc),
      )

  contents-set :
      (conns : c.slab.Store) (k : ℕ) (q : c.packets.Queue) (o : Option ℕ)
      → (o ≢ some k)
      → contents c (c.slab.set conns k q) o ≡ contents c conns o
  contents-set conns k q none h = refl
  contents-set conns k q (some j) h =
      rw (contents, c.slab.get-set_ne conns k j q (λ same. h (ap some same)))

  -- What `insert` does to the state, for a channel without a key.
  abbrev inserted : Channel → InnerDtpSocket c → InnerDtpSocket c
  inserted ch s = record s {
    connections = (c.slab.insert s.connections c.packets.new).1;
    channel_lookup =
        update ch (some (c.slab.insert s.connections c.packets.new).0) s.channel_lookup;
  }

  module _ (ch : Channel) (s : InnerDtpSocket c) (m : Mux c.buf) (v : Shows c s m)
      (fresh : s.channel_lookup ch ≡ none) where
    abbrev key : ℕ
    key = (c.slab.insert s.connections c.packets.new).0

    not_used : (x : Channel) → s.channel_lookup x ≢ some key
    not_used x e =
        let (q, got) = v.live x key e in
        let free = c.slab.get-insert_free s.connections c.packets.new in cc

    abbrev table : Channel → Option ℕ
    table = (inserted ch s).channel_lookup

    at_ch : (x : Channel) (k : ℕ) → x ≡ ch → table x ≡ some k → key ≡ k
    at_ch x k same e = let now = update_same ch x (some key) s.channel_lookup same in cc

    elsewhere :
        (x : Channel) (k : ℕ)
        → chan_eq x ch ≡ false
        → table x ≡ some k
        → (s.channel_lookup x ≡ some k) × (k ≢ key)
    elsewhere x k other e =
        let before = sym (update_other ch x (some key) s.channel_lookup other) ∙ e in
        (before, λ same. not_used x (before ∙ ap some same))

    inserted-live :
        (x : Channel) (k : ℕ)
        → table x ≡ some k
        → (q : c.packets.Queue) × (c.slab.get (inserted ch s).connections k ≡ some q)
    inserted-live x k e = elim (same_or_not x ch) [
      | inl same ↦ (
        c.packets.new,
        rw (← at_ch x k same e) (c.slab.get-insert_self s.connections c.packets.new),
      )
      | inr other ↦
          let (before, ne) = elsewhere x k other.1 e in
          let (q, got) = v.live x k before in
          (q, c.slab.get-insert_ne s.connections c.packets.new k ne ∙ got)
    ]

    new_empty : contents c (inserted ch s).connections (some key) ≡ []
    new_empty =
        rw (contents, c.slab.get-insert_self s.connections c.packets.new, c.packets.to_list-new)

    inserted-queues : (x : Channel) → contents c (inserted ch s).connections (table x) ≡ m.queues x
    inserted-queues x = elim (same_or_not x ch) [
      | inl same ↦
          rw (update_same ch x (some key) s.channel_lookup same, same)
            (new_empty ∙ ap (contents c s.connections) (sym fresh) ∙ v.queues ch)
      | inr other ↦
          rw (update_other ch x (some key) s.channel_lookup other.1) (
            contents-insert s.connections c.packets.new (s.channel_lookup x) (v.live x)
            ∙ v.queues x)
    ]

    inserted-one_channel : (x y : Channel) (k : ℕ) → table x ≡ some k → table y ≡ some k → x ≡ y
    inserted-one_channel x y k ex ey = elim (same_or_not x ch) [
      | inl same ↦ elim (same_or_not y ch) [
        | inl same' ↦ same ∙ sym same'
        | inr other ↦ absurd ((elsewhere y k other.1 ey).1 (sym (at_ch x k same ex)))
      ]
      | inr other ↦ elim (same_or_not y ch) [
        | inl same ↦ absurd ((elsewhere x k other.1 ex).1 (sym (at_ch y k same ey)))
        | inr other' ↦
            v.one_channel x y k (elsewhere x k other.1 ex).0 (elsewhere y k other'.1 ey).0
      ]
    ]

    inserted-Shows : Shows c (inserted ch s) m
    inserted-Shows = record {
      net = v.net;
      queues = inserted-queues;
      taken = v.taken;
      waiting = v.waiting;
      live = inserted-live;
      one_channel = inserted-one_channel;
    }

  -- `connection_id` always finds a key, and the abstract state does not notice.
  pub connection_id-Shows :
      (ch : Channel) (s : InnerDtpSocket c) (m : Mux c.buf)
      → Shows c s m
      → (k : ℕ) × (s' : InnerDtpSocket c) × (connection_id c ch s ≡ (ok (some k), s'))
        × (s'.channel_lookup ch ≡ some k)
        × Shows c s' m
  unfolding connection_id
  connection_id-Shows ch s m v = elim (Option-cases (s.channel_lookup ch)) [
    | inr (k, e) ↦ (k, s, rw (connection_id, e) refl, e, v)
    | inl fresh ↦ (
      key ch s m v fresh,
      inserted ch s,
      rw (connection_id, fresh) refl,
      update_self ch (some (key ch s m v fresh)) s.channel_lookup,
      inserted-Shows ch s m v fresh,
    )
  ]

  -- A change of the queue under the key of `ch` is a change of that channel's packets, and of no others.
  pub set-Shows :
      (ch : Channel) (k : ℕ) (q r : c.packets.Queue) (s : InnerDtpSocket c) (m : Mux c.buf)
      → Shows c s m
      → s.channel_lookup ch ≡ some k
      → c.slab.get s.connections k ≡ some q
      → Shows c
          (record s { connections = c.slab.set s.connections k r })
          (record m { queues = update ch (c.packets.to_list r) m.queues })
  set-Shows ch k q r s m v has got = record {
    net = v.net;
    queues = λ x. elim (same_or_not x ch) [
      | inl same ↦
          rw (update_same ch x (c.packets.to_list r) m.queues same, same, has)
            (rw (contents, c.slab.get-set_self s.connections k q r got))
      | inr other ↦ rw (update_other ch x (c.packets.to_list r) m.queues other.1) (
          contents-set s.connections k r (s.channel_lookup x)
            (λ e. other.0 (v.one_channel x ch k e has))
          ∙ v.queues x)
    ];
    taken = v.taken;
    waiting = v.waiting;
    live = λ x j e. elim (same_or_not x ch) [
      | inl same ↦
          let here : s.channel_lookup x ≡ some k = rw same has in
          let k_is : k ≡ j = cc in (r, rw (← k_is) (c.slab.get-set_self s.connections k q r got))
      | inr other ↦
          let (old, found) = v.live x j e in
          let ne : j ≢ k = λ same. other.0 (v.one_channel x ch k (e ∙ ap some same) has) in
          (old, c.slab.get-set_ne s.connections k j r ne ∙ found)
    ];
    one_channel = v.one_channel;
  }
