-- ===== src/Broadcaster/Delivered.antt =====
-- pkg/broadcaster/broadcaster.go: what a subscriber's channel holds of the stream, in every state.
use kine.Prelude.{
  ℕ, zero, suc, ◌-◌, ◌≤◌, ◌<◌, ◌≡◌, refl, sym, ap, ◌∙◌, subst, true, false, Option, none, some,
  List, [], ◌∷◌, ◌++◌, map, append_assoc, ◌⊎◌, inl, inr, ltb, ltb→lt, length, length-append,
  if_cases, All, All-append, arith,
}
use mathlib.Core.List.Sublistᴰ.{slnil, cons, cons-cons}
use mathlib.Core.List.{Sublistᴰ}
use kine.Types.{Error}
use kine.Broadcaster.Channels.{
  Channel, Broadcaster, channel_size, new_channel, unsub, slow_unsub, send_item, send_open, receive,
  receive_from, at, subscribe, Step, subscribed, streamed_item, stream_ended, canceled, dropped,
  received_item, Reached, here, more, add_channel, start,
}

module _ {A : Type 0} where
  Sublist-both : {xs ys : List A} (a : A) → Sublistᴰ xs ys → Sublistᴰ (xs ++ a ∷ []) (ys ++ a ∷ [])
  Sublist-both a slnil = cons-cons refl slnil
  Sublist-both a (cons s) = cons (Sublist-both a s)
  Sublist-both a (cons-cons e s) = cons-cons e (Sublist-both a s)

  Sublist-right : {xs ys : List A} (a : A) → Sublistᴰ xs ys → Sublistᴰ xs (ys ++ a ∷ [])
  Sublist-right a slnil = cons slnil
  Sublist-right a (cons s) = cons (Sublist-right a s)
  Sublist-right a (cons-cons e s) = cons-cons e (Sublist-right a s)

module _ {E : Type 0} where
  -- what the reader of a channel has or can get
  abbrev pub delivered : Channel E → List E
  delivered c = c.received ++ c.buffer

  abbrev pub IsClosed : Channel E → Type 0
  IsClosed c = c.is_open ≡ false

  -- A channel has room for what it holds; what was delivered is a part of what was streamed, in its
  -- order; and it is all of it, unless the channel is closed or a goroutine is to close it.
  pub record IsFaithful (c : Channel E) : Type 0 where
    pub bounded : length c.buffer ≤ channel_size
    pub ordered : Sublistᴰ (delivered c) c.streamed
    pub complete : (c.is_open ≡ false) ⊎ (0 < c.slow) ⊎ (delivered c ≡ c.streamed)

  pub record AllFaithful (b : Broadcaster E) : Type 0 where
    pub faithful : All IsFaithful b.channels
    pub closed : (b.running ≡ true) ⊎ All IsClosed b.channels

  new_channel-IsFaithful : IsFaithful new_channel
  new_channel-IsFaithful = record {
    bounded = omega arith;
    ordered = slnil;
    complete = inr (inr refl);
  }

  unsub-IsFaithful : (c : Channel E) → IsFaithful c → IsFaithful (unsub c)
  unsub-IsFaithful c h =
      if_cases IsFaithful c.is_open _ c
        (λ _. record { bounded = h.bounded; ordered = h.ordered; complete = inl refl }) (λ _. h)

  unsub-closed : (c : Channel E) → (unsub c).is_open ≡ false
  unsub-closed c =
      if_cases (λ (d : Channel E). d.is_open ≡ false) c.is_open _ c (λ _. refl) (λ p. p)

  slow_unsub-IsFaithful : (c : Channel E) → IsFaithful c → IsFaithful (slow_unsub c)
  slow_unsub-IsFaithful c h =
      if_cases IsFaithful c.is_open _ _
        (λ _. record { bounded = h.bounded; ordered = h.ordered; complete = inl refl })
        (λ p. record { bounded = h.bounded; ordered = h.ordered; complete = inl p })

  sent_complete :
      (item : E) (c : Channel E)
      → (c.is_open ≡ false) ⊎ (0 < c.slow) ⊎ (delivered c ≡ c.streamed)
      → (c.is_open ≡ false)
        ⊎ (0 < c.slow)
        ⊎ (c.received ++ (c.buffer ++ item ∷ []) ≡ c.streamed ++ item ∷ [])
  sent_complete item c (inl p) = inl p
  sent_complete item c (inr (inl p)) = inr (inl p)
  sent_complete item c (inr (inr p)) =
      inr (inr (sym (append_assoc c.received c.buffer (item ∷ [])) ∙ ap (λ xs. xs ++ item ∷ []) p))

  send_item-IsFaithful : (item : E) (c : Channel E) → IsFaithful c → IsFaithful (send_item item c)
  send_item-IsFaithful item c h =
      if_cases IsFaithful (ltb (length c.buffer) channel_size) _ _
        (λ room. record {
          bounded = omega (
            arith,
            ltb→lt (length c.buffer) channel_size room,
            length-append c.buffer (item ∷ []),
          );
          ordered =
              subst (λ xs. Sublistᴰ xs (c.streamed ++ item ∷ []))
                (append_assoc c.received c.buffer (item ∷ [])) (Sublist-both item h.ordered);
          complete = sent_complete item c h.complete;
        })
        (λ full. record {
          bounded = h.bounded;
          ordered = Sublist-right item h.ordered;
          complete = inr (inl (omega arith));
        })

  send_open-IsFaithful : (item : E) (c : Channel E) → IsFaithful c → IsFaithful (send_open item c)
  send_open-IsFaithful item c h =
      if_cases IsFaithful c.is_open (send_item item c) c (λ _. send_item-IsFaithful item c h)
        (λ _. h)

  receive_from-IsFaithful :
      (xs : List E) (c : Channel E) → c.buffer ≡ xs → IsFaithful c → IsFaithful (receive_from xs c)
  receive_from-IsFaithful [] c e h = h
  receive_from-IsFaithful (x ∷ rest) c e h =
      let same : delivered c ≡ (c.received ++ x ∷ []) ++ rest =
        ap (λ xs. c.received ++ xs) e ∙ sym (append_assoc c.received (x ∷ []) rest) in
      record {
        bounded = omega (arith, h.bounded, ap length e);
        ordered = subst (λ xs. Sublistᴰ xs c.streamed) same h.ordered;
        complete =
            subst (λ xs. (c.is_open ≡ false) ⊎ (0 < c.slow) ⊎ (xs ≡ c.streamed)) same h.complete;
      }

  receive_from-closed :
      (xs : List E) (c : Channel E) → c.is_open ≡ false → (receive_from xs c).is_open ≡ false
  receive_from-closed [] c p = p
  receive_from-closed (x ∷ rest) c p = p

  All-at :
      (P : Channel E → Type 0) (f : Channel E → Channel E)
      → ((c : Channel E) → P c → P (f c))
      → (i : ℕ) (cs : List (Channel E)) → All P cs
      → All P (at f i cs)
  All-at P f keeps i [] h = tt
  All-at P f keeps zero (c ∷ cs) h = (keeps c h.0, h.1)
  All-at P f keeps (suc i) (c ∷ cs) h = (h.0, All-at P f keeps i cs h.1)

  All-mapped :
      (P Q : Channel E → Type 0) (f : Channel E → Channel E)
      → ((c : Channel E) → P c → Q (f c))
      → (cs : List (Channel E)) → All P cs
      → All Q (map f cs)
  All-mapped P Q f keeps [] h = tt
  All-mapped P Q f keeps (c ∷ cs) h = (keeps c h.0, All-mapped P Q f keeps cs h.1)

  closed-at :
      (f : Channel E → Channel E) (i : ℕ) (b : Broadcaster E)
      → ((c : Channel E) → IsFaithful c → IsFaithful (f c))
      → ((c : Channel E) → IsClosed c → IsClosed (f c))
      → AllFaithful b
      → AllFaithful (record b { channels = at f i b.channels })
  closed-at f i b keeps closes h = record {
    faithful = All-at IsFaithful f keeps i b.channels h.faithful;
    closed = elim h.closed [
      | inl p ↦ inl p
      | inr p ↦ inr (All-at IsClosed f closes i b.channels p)
    ];
  }

  add_channel-AllFaithful :
      (cs : List (Channel E))
      → All IsFaithful cs
      → AllFaithful (record { running = true; channels = cs ++ new_channel ∷ [] })
  add_channel-AllFaithful cs h = record {
    faithful = All-append IsFaithful cs (new_channel ∷ []) h (new_channel-IsFaithful, tt);
    closed = inl refl;
  }

  subscribe-AllFaithful :
      (err : Option Error) (b : Broadcaster E) → AllFaithful b → AllFaithful (subscribe err b).1
  subscribe-AllFaithful err b h =
      if_cases (λ (r : Option Error × Broadcaster E). AllFaithful r.1) b.running _ _
        (λ p. record {
          faithful =
              All-append IsFaithful b.channels (new_channel ∷ []) h.faithful
                (new_channel-IsFaithful, tt);
          closed = inl p;
        })
        (λ _. started err)
    where
      started : (e : Option Error) → AllFaithful (add_channel (start e b)).1
      started none = add_channel-AllFaithful b.channels h.faithful
      started (some e) = h

  Step-AllFaithful : {b b' : Broadcaster E} → Step b b' → AllFaithful b → AllFaithful b'
  Step-AllFaithful {b} (subscribed err) h = subscribe-AllFaithful err b h
  Step-AllFaithful {b} (streamed_item item p) h = record {
    faithful =
        All-mapped IsFaithful IsFaithful (send_open item) (send_open-IsFaithful item) b.channels
          h.faithful;
    closed = inl p;
  }
  Step-AllFaithful {b} (stream_ended p) h = record {
    faithful = All-mapped IsFaithful IsFaithful unsub unsub-IsFaithful b.channels h.faithful;
    closed =
        inr (All-mapped IsFaithful IsClosed unsub (λ c _. unsub-closed c) b.channels h.faithful);
  }
  Step-AllFaithful {b} (canceled i) h =
      closed-at unsub i b unsub-IsFaithful (λ c _. unsub-closed c) h
  Step-AllFaithful {b} (dropped i) h =
      closed-at slow_unsub i b slow_unsub-IsFaithful
        (λ c _. unsub-closed (record c { slow = c.slow - 1 })) h
  Step-AllFaithful {b} (received_item i) h =
      closed-at receive i b (λ c. receive_from-IsFaithful c.buffer c refl)
        (λ c. receive_from-closed c.buffer c) h

  -- In every state that a broadcaster reaches, the channel of each subscriber holds at most its
  -- size; what its reader has or can get is a part of what was streamed since the subscription, in
  -- its order, and all of it unless the channel is closed or a goroutine is to close it; and once
  -- the stream has ended every channel is closed.
  pub Reached-AllFaithful : {b : Broadcaster E} → Reached b → AllFaithful b
  Reached-AllFaithful here = record { faithful = tt; closed = inr tt }
  Reached-AllFaithful (more r s) = Step-AllFaithful s (Reached-AllFaithful r)
