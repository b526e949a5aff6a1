-- ===== src/Kvs/Connection/Fresh.antt =====
-- The first send over a connection that was just made.
use mathlib.Core.Path.{subst}
use gst_kvs_sink.Common.{
  ℕ, suc, ◌-◌, ◌≤◌, ◌≡◌, refl, sym, ◌∙◌, Bool, true, false, some, [], arith, Result, ok, err, panic,
}
use gst_kvs_sink.Common.Time.{Instant, duration_secs}
use gst_kvs_sink.Fragment.{Fragment}
use gst_kvs_sink.Kvs.Connection.{
  Sender, KvsConnection, waiting, send_bytes, send_both, apply_acks, trim_status,
  process_acknowledgments, check_stale, check_connection_health, send_checked, send_fragment,
}

-- A connection that was just made, and whose clock has not stood still for the time in which a
-- connection becomes stale.
pub record IsFresh {N : Type 0} (k : KvsConnection N) : Type 0 where
  pub sender : k.fragment_sender ≡ some (record { sent = []; closed = false })
  pub monitor : k.connection_monitor ≡ some waiting
  pub acks : k.ack_receiver ≡ some []
  pub status : k.fragment_status ≡ []
  pub recent : duration_secs (k.clock k.readings - k.last_ack_time) ≤ 30

send_both-open :
    (b : Bool) (f : Fragment) (ch : Sender) → ch.closed ≡ false → (send_both b f ch).0 ≡ ok tt
unfolding send_both send_bytes
send_both-open true f ch e = ground arith
send_both-open false f ch e = ground arith

module _ {N : Type 0} where
  pub send_checked-open :
      (f : Fragment) (k : KvsConnection N) {ch : Sender}
      → k.fragment_sender ≡ some ch
      → ch.closed ≡ false
      → (send_checked f k).0 ≡ ok tt
  unfolding send_checked
  send_checked-open f k {ch} there e =
      ground (arith, send_both-open k.first_fragment_of_connection f ch e)

  process_acknowledgments-fresh :
      (k : KvsConnection N)
      → IsFresh k
      → process_acknowledgments k ≡ record k { ack_receiver = some [] }
  unfolding process_acknowledgments trim_status apply_acks
  process_acknowledgments-fresh k h = rw (h.acks, h.status) refl

  check_stale-recent :
      (k : KvsConnection N)
      → duration_secs (k.clock k.readings - k.last_ack_time) ≤ 30
      → (check_stale k).0 ≡ ok tt
  unfolding check_stale
  check_stale-recent k h = ground arith

  check_connection_health-waiting :
      (k : KvsConnection N)
      → k.connection_monitor ≡ some waiting
      → check_connection_health k ≡ check_stale k
  unfolding check_connection_health
  check_connection_health-waiting k h = rw h refl

  abbrev pub then_checked :
      Fragment → Result (Unit {0}) × KvsConnection N → Result (Unit {0}) × KvsConnection N
  then_checked f r = elim r.0 [
    | ok _ ↦ send_checked f r.1
    | err e ↦ (err e, r.1)
    | panic ↦ (panic, r.1)
  ]

  check_stale_sender : (k : KvsConnection N) → (check_stale k).1.fragment_sender ≡ k.fragment_sender
  unfolding check_stale
  check_stale_sender k = ground arith

  pub send_fragment-fresh :
      (f : Fragment) (k : KvsConnection N) → IsFresh k → (send_fragment f k).0 ≡ ok tt
  unfolding send_fragment
  send_fragment-fresh f k h =
      let k' : KvsConnection N = record k { ack_receiver = some [] } in
      let came : (check_stale k').0 ≡ ok tt = check_stale-recent k' h.recent in
      subst (λ j. (then_checked f (check_connection_health j)).0 ≡ ok tt)
        (sym (process_acknowledgments-fresh k h))
        (subst (λ r. (then_checked f r).0 ≡ ok tt)
          (sym (check_connection_health-waiting k' h.monitor))
          (ground (
            arith,
            came,
            send_checked-open f (check_stale k').1 (check_stale_sender k' ∙ h.sender) refl,
          )))

-- Between two readings of the clock there is not the time in which a connection becomes stale.
abbrev pub Runs : (ℕ → Instant) → Type 0
Runs clock = (n : ℕ) → duration_secs (clock (suc n) - clock n) ≤ 30
