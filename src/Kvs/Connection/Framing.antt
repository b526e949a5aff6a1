-- ===== src/Kvs/Connection/Framing.antt =====
-- What goes over the channel of a connection: the headers of its first fragment, and then the
-- clusters of all its fragments.
use gst_kvs_sink.Common.{
  ◌≡◌, refl, false, List, [], ◌∷◌, ◌++◌, arith, inl, inr, ◌⊎◌, codes, Result, ok, err, panic,
}
use gst_kvs_sink.Common.Time.{Duration}
use gst_kvs_sink.Fragment.{Fragment}
use gst_kvs_sink.Kvs.Connection.{
  KvsConnection, Network, send_fragment, connect, cleared, reconnect_once, reconnect_with_backoff,
}
use gst_kvs_sink.Kvs.Client.{internal, connection, display, put_on, resend}
use gst_kvs_sink.Kvs.Connection.Carried.{chunks, Carries, send_fragment-Carries}

module _ {N : Type 0} (net : Network N) where
  reconnect_once-Carries :
      (k : KvsConnection N) → (reconnect_once net k).0 ≡ ok tt → Carries (reconnect_once net k).1 []
  unfolding reconnect_once connect cleared chunks
  reconnect_once-Carries k e = record {
    channel = record { sent = []; closed = false };
    there = ground arith;
    carried = refl;
    at_start = ground arith;
  }

  abbrev pub then_again :
      List Duration → Result (Unit {0}) → KvsConnection N → Result (Unit {0}) × KvsConnection N
  then_again waits r k =
      let again = reconnect_with_backoff net waits k in
      elim r [ ok _ ↦ (ok tt, k) | err e ↦ again | panic ↦ (panic, k) ]

  then_again-Carries :
      (waits : List Duration) (r : Result (Unit {0})) (k : KvsConnection N)
      → (r ≡ ok tt → Carries k [])
      → ((reconnect_with_backoff net waits k).0 ≡ ok tt
          → Carries (reconnect_with_backoff net waits k).1 [])
      → (then_again waits r k).0 ≡ ok tt
      → Carries (then_again waits r k).1 []
  then_again-Carries waits (ok x) k now later e = now refl
  then_again-Carries waits (err x) k now later e = later e
  then_again-Carries waits panic k now later e = cc

  abbrev pub give_up : Result (Unit {0}) → KvsConnection N → Result (Unit {0}) × KvsConnection N
  give_up r k = elim r [
    | ok _ ↦ (ok tt, k)
    | err e ↦ (err (codes "Failed to reconnect after exhausting retries: " ++ e), k)
    | panic ↦ (panic, k)
  ]

  give_up-Carries :
      (r : Result (Unit {0})) (k : KvsConnection N)
      → (r ≡ ok tt → Carries k [])
      → (give_up r k).0 ≡ ok tt
      → Carries (give_up r k).1 []
  give_up-Carries (ok x) k h e = h refl
  give_up-Carries (err x) k h e = cc
  give_up-Carries panic k h e = cc

  pub reconnect_with_backoff-Carries :
      (waits : List Duration) (k : KvsConnection N)
      → (reconnect_with_backoff net waits k).0 ≡ ok tt
      → Carries (reconnect_with_backoff net waits k).1 []
  unfolding reconnect_with_backoff
  reconnect_with_backoff-Carries [] k e =
      let (r, k') = reconnect_once net k in give_up-Carries r k' (reconnect_once-Carries k) e
  reconnect_with_backoff-Carries (wait ∷ waits) k e =
      let (r, k') = reconnect_once net k in
      then_again-Carries waits r k' (reconnect_once-Carries k)
        (reconnect_with_backoff-Carries waits k') e

  -- How the channel stands when the fragment was accepted: behind the others, or alone on a new
  -- connection.
  abbrev pub Accepted : KvsConnection N → List Fragment → Fragment → Type 0
  Accepted k gs f = Carries k (gs ++ (f ∷ [])) ⊎ Carries k (f ∷ [])

  abbrev pub then_resend :
      Fragment → Result (Unit {0}) → KvsConnection N → Result (Unit {0}) × KvsConnection N
  then_resend f r k = elim r [
    | ok _ ↦ resend net f k
    | err e ↦ (err (display (internal e)), k)
    | panic ↦ (panic, k)
  ]

  abbrev pub then_fail : Result (Unit {0}) → KvsConnection N → Result (Unit {0}) × KvsConnection N
  then_fail r k = elim r [
    | ok _ ↦ (ok tt, k)
    | err e ↦
        (err (display (connection (codes "Failed to send fragment after reconnection: " ++ e))), k)
    | panic ↦ (panic, k)
  ]

  then_fail-Carries :
      (r : Result (Unit {0})) (k : KvsConnection N) {gs : List Fragment}
      → (r ≡ ok tt → Carries k gs)
      → (then_fail r k).0 ≡ ok tt
      → Carries (then_fail r k).1 gs
  then_fail-Carries (ok x) k h e = h refl
  then_fail-Carries (err x) k h e = cc
  then_fail-Carries panic k h e = cc

  pub then_resend-Carries :
      (f : Fragment) (r : Result (Unit {0})) (k : KvsConnection N)
      → (r ≡ ok tt → Carries k [])
      → (then_resend f r k).0 ≡ ok tt
      → Carries (then_resend f r k).1 (f ∷ [])
  unfolding resend
  then_resend-Carries f (ok x) k h e =
      let (r, k') = send_fragment f k in
      then_fail-Carries r k' (send_fragment-Carries f k [] (h refl)) e
  then_resend-Carries f (err x) k h e = cc
  then_resend-Carries f panic k h e = cc

  abbrev pub then_reconnect :
      List Duration
      → Fragment
      → Result (Unit {0})
      → KvsConnection N
      → Result (Unit {0}) × KvsConnection N
  then_reconnect waits f r k = elim r [
    | ok _ ↦ (ok tt, k)
    | panic ↦ (panic, k)
    | err _ ↦ (let (r', k') = reconnect_with_backoff net waits k in then_resend f r' k')
  ]

  then_reconnect-Accepted :
      (waits : List Duration) (f : Fragment) (r : Result (Unit {0})) (k : KvsConnection N)
      (gs : List Fragment)
      → (r ≡ ok tt → Carries k (gs ++ (f ∷ [])))
      → (then_reconnect waits f r k).0 ≡ ok tt
      → Accepted (then_reconnect waits f r k).1 gs f
  then_reconnect-Accepted waits f (ok x) k gs h e = inl (h refl)
  then_reconnect-Accepted waits f (err x) k gs h e =
      let (r', k') = reconnect_with_backoff net waits k in
      inr (then_resend-Carries f r' k' (reconnect_with_backoff-Carries waits k) e)
  then_reconnect-Accepted waits f panic k gs h e = cc

  -- Where the open channel has carried the fragments `gs`: a fragment that `put_fragment` accepts
  -- is either carried behind them, or, after reconnections, alone on a fresh channel. In both
  -- cases the channel's chunks are the headers of its first fragment and then the clusters of all
  -- its fragments in order, whatever acknowledgments and failed attempts came in between.
  pub put_on-Accepted :
      (waits : List Duration) (f : Fragment) (k : KvsConnection N) (gs : List Fragment)
      → Carries k gs
      → (put_on net waits f k).0 ≡ ok tt
      → Accepted (put_on net waits f k).1 gs f
  unfolding put_on
  put_on-Accepted waits f k gs h e =
      let (r, k') = send_fragment f k in
      then_reconnect-Accepted waits f r k' gs (send_fragment-Carries f k gs h) e
