-- ===== src/Kvs/Connection/Carried.antt =====
-- The channel of a connection: what `send_fragment` puts on it.
use mathlib.Core.List.{map-append}
use gst_kvs_sink.Common.{
  ℕ, ◌≡◌, refl, sym, ap, ◌∙◌, Bool, true, false, Option, none, some, List, [], ◌∷◌, ◌++◌, map,
  append_assoc, arith, is_empty, if◌then◌else◌, Result, ok, err, panic,
}
use gst_kvs_sink.Fragment.{Fragment}
use gst_kvs_sink.Kvs.Acks.{KvsAcknowledgment}
use gst_kvs_sink.Kvs.Connection.{
  Sender, KvsConnection, send_bytes, send_both, apply_ack, apply_acks, trim_status,
  process_acknowledgments, check_stale, check_connection_health, send_checked, send_fragment,
}

-- The chunks of the stream that carries these fragments.
unfoldable pub chunks : List Fragment → List (List ℕ)
chunks [] = []
chunks (f ∷ fs) = f.header_data ∷ map (λ g. g.cluster_data) (f ∷ fs)

chunks-append :
    (gs : List Fragment) (f : Fragment)
    → chunks (gs ++ (f ∷ []))
      ≡ chunks gs
        ++ (if is_empty gs then f.header_data ∷ f.cluster_data ∷ [] else f.cluster_data ∷ [])
unfolding chunks
chunks-append [] f = refl
chunks-append (g ∷ gs) f =
    ap (λ l. g.header_data ∷ g.cluster_data ∷ l)
      (map-append (λ (x : Fragment). x.cluster_data) gs (f ∷ []))

-- The open channel has carried these fragments, and no others.
pub record Carries {N : Type 0} (k : KvsConnection N) (gs : List Fragment) : Type 0 where
  pub channel : Sender
  pub there : k.fragment_sender ≡ some channel
  pub carried : channel.sent ≡ chunks gs
  pub at_start : k.first_fragment_of_connection ≡ is_empty gs

-- Two states of a connection that agree on the channel.
record Same {N : Type 0} (k k' : KvsConnection N) : Type 0 where
  sender : k'.fragment_sender ≡ k.fragment_sender
  first : k'.first_fragment_of_connection ≡ k.first_fragment_of_connection

-- The channel that the two sends leave.
send_both-sent :
    (b : Bool) (f : Fragment) (ch : Sender)
    → (send_both b f ch).0 ≡ ok tt
    → (send_both b f ch).1.sent
      ≡ ch.sent ++ (if b then f.header_data ∷ f.cluster_data ∷ [] else f.cluster_data ∷ [])
unfolding send_both send_bytes
send_both-sent true f ch e =
    ground (arith, append_assoc ch.sent (f.header_data ∷ []) (f.cluster_data ∷ []))
send_both-sent false f ch e = ground arith

is_empty-behind : (gs : List Fragment) (f : Fragment) → is_empty (gs ++ (f ∷ [])) ≡ false
is_empty-behind [] f = refl
is_empty-behind (g ∷ gs) f = refl

module _ {N : Type 0} where
  Same-trans : {j k l : KvsConnection N} → Same j k → Same k l → Same j l
  Same-trans h k = record { sender = k.sender ∙ h.sender; first = k.first ∙ h.first }

  apply_ack-Same : (ack : KvsAcknowledgment) (k : KvsConnection N) → Same k (apply_ack ack k)
  unfolding apply_ack
  apply_ack-Same ack k = record { sender = ground arith; first = ground arith }

  apply_acks-Same :
      (acks : List KvsAcknowledgment) (k : KvsConnection N) → Same k (apply_acks acks k)
  unfolding apply_acks
  apply_acks-Same [] k = record { sender = refl; first = refl }
  apply_acks-Same (a ∷ acks) k =
      Same-trans (apply_ack-Same a k) (apply_acks-Same acks (apply_ack a k))

  trim_status-Same : (k : KvsConnection N) → Same k (trim_status k)
  unfolding trim_status
  trim_status-Same k = record { sender = ground arith; first = ground arith }

  abbrev drained : Option (List KvsAcknowledgment) → KvsConnection N → KvsConnection N
  drained acks k = elim acks [
    | none ↦ k
    | some found ↦ trim_status (apply_acks found (record k { ack_receiver = some [] }))
  ]

  drained-Same :
      (acks : Option (List KvsAcknowledgment)) (k : KvsConnection N) → Same k (drained acks k)
  drained-Same none k = record { sender = refl; first = refl }
  drained-Same (some acks) k =
      let k' : KvsConnection N = record k { ack_receiver = some [] } in
      let t = Same-trans (apply_acks-Same acks k') (trim_status-Same (apply_acks acks k')) in
      record { sender = t.sender; first = t.first }

  process_acknowledgments-Same : (k : KvsConnection N) → Same k (process_acknowledgments k)
  unfolding process_acknowledgments
  process_acknowledgments-Same k = drained-Same k.ack_receiver k

  check_connection_health-Same : (k : KvsConnection N) → Same k (check_connection_health k).1
  unfolding check_connection_health check_stale
  check_connection_health-Same k = record { sender = ground arith; first = ground arith }

  Same-Carries :
      {k k' : KvsConnection N} {gs : List Fragment} → Same k k' → Carries k gs → Carries k' gs
  Same-Carries e h = record {
    channel = h.channel;
    there = e.sender ∙ h.there;
    carried = h.carried;
    at_start = e.first ∙ h.at_start;
  }

  send_checked_lem :
      (f : Fragment) (k : KvsConnection N) {ch : Sender}
      → k.fragment_sender ≡ some ch
      → (send_checked f k).0 ≡ ok tt
      → ((send_both k.first_fragment_of_connection f ch).0 ≡ ok tt)
        × ((send_checked f k).1.fragment_sender
            ≡ some (send_both k.first_fragment_of_connection f ch).1)
        × ((send_checked f k).1.first_fragment_of_connection ≡ false)
  unfolding send_checked
  send_checked_lem f k there e = (ground arith, ground arith, ground arith)

  send_checked-Carries :
      (f : Fragment) (k : KvsConnection N) (gs : List Fragment)
      → Carries k gs
      → (send_checked f k).0 ≡ ok tt
      → Carries (send_checked f k).1 (gs ++ (f ∷ []))
  send_checked-Carries f k gs h e =
      let (sent, sender, first) = send_checked_lem f k h.there e in
      record {
        channel = (send_both k.first_fragment_of_connection f h.channel).1;
        there = sender;
        carried =
            send_both-sent k.first_fragment_of_connection f h.channel sent
            ∙ rw (h.at_start, h.carried) (sym (chunks-append gs f));
        at_start = first ∙ sym (is_empty-behind gs f);
      }

  abbrev then_send :
      Fragment → Result (Unit {0}) → KvsConnection N → Result (Unit {0}) × KvsConnection N
  then_send f r k = elim r [ ok _ ↦ send_checked f k | err e ↦ (err e, k) | panic ↦ (panic, k) ]

  then_send-Carries :
      (f : Fragment) (r : Result (Unit {0})) (k : KvsConnection N) (gs : List Fragment)
      → Carries k gs
      → (then_send f r k).0 ≡ ok tt
      → Carries (then_send f r k).1 (gs ++ (f ∷ []))
  then_send-Carries f (ok x) k gs h e = send_checked-Carries f k gs h e
  then_send-Carries f (err x) k gs h e = cc
  then_send-Carries f panic k gs h e = cc

  -- A fragment that `send_fragment` accepts is carried behind the ones before it, with its headers
  -- if it is the connection's first, whatever acknowledgments came in between.
  pub send_fragment-Carries :
      (f : Fragment) (k : KvsConnection N) (gs : List Fragment)
      → Carries k gs
      → (send_fragment f k).0 ≡ ok tt
      → Carries (send_fragment f k).1 (gs ++ (f ∷ []))
  unfolding send_fragment
  send_fragment-Carries f k gs h e =
      let (r, k') = check_connection_health (process_acknowledgments k) in
      then_send-Carries f r k' gs
        (Same-Carries (check_connection_health-Same (process_acknowledgments k))
          (Same-Carries (process_acknowledgments-Same k) h))
        e
