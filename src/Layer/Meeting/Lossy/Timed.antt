-- ===== src/Layer/Meeting/Lossy/Timed.antt =====
-- The handshake over channels that lose frames, with the deadlines of layer/mod.rs: a lost copy
-- costs the two seconds until the next one, and a side that is not encrypted 30 seconds after its
-- handshake began fails.
use openlv_rs.Prelude.{
  ℕ, zero, suc, ◌+◌, ◌*◌, ◌<◌, ◌≡◌, refl, ap, ◌∙◌, arith, leb, false, if◌then◌else◌,
}
use openlv_rs.Layer.State.{Platform}
use openlv_rs.Layer.Sending.{deadline_elapsed}
use openlv_rs.Layer.Meeting.{
  Side, on_side, Pairing, Pair, set_up_both, client_to_host, host_to_client,
}
use openlv_rs.Layer.Meeting.Laws.{SideLaws, PlatformLaws, PairingLaws}
use openlv_rs.Layer.Meeting.Exchange.{IsLinked}
use openlv_rs.Layer.Meeting.Lossy.{
  Losses, lose_answer, repeats, host_repeats, client_repeats, answer_again, lossy_from, lossy_run,
}
use openlv_rs.Layer.Meeting.Lossy.Recovery.{lossy_completes}

-- All the copies that are lost.
abbrev pub lost : Losses → ℕ
lost losses =
    losses.flashes + losses.host_keys + losses.client_keys + losses.host_capabilities
    + losses.answers

module _ {V : Type 0} (p : Platform V) (host_side client_side : Side) where
  -- The deadline tasks at the second `now`: the client's handshake began at 0, the host's when the
  -- first frame came, at `begun`.
  fire : ℕ → ℕ → Pair V → Pair V
  fire begun now s = record s {
    host = if leb (begun + 30) now then deadline_elapsed (on_side p host_side) s.host else s.host;
    client = if leb 30 now then deadline_elapsed (on_side p client_side) s.client else s.client;
  }

  -- Periods of two seconds from the second `now` on, each with one more copy of a frame.
  client_waits : ℕ → ℕ → ℕ → Pair V → Pair V
  unfolding fire
  client_waits begun now zero s = s
  client_waits begun now (suc n) s =
      fire begun (now + 2 * suc n)
        (client_repeats p host_side client_side 1 (client_waits begun now n s))

  host_waits : ℕ → ℕ → ℕ → Pair V → Pair V
  unfolding fire
  host_waits begun now zero s = s
  host_waits begun now (suc n) s =
      fire begun (now + 2 * suc n)
        (host_repeats p host_side client_side 1 (host_waits begun now n s))

  answer_waits : ℕ → ℕ → ℕ → Pair V → Pair V
  unfolding fire
  answer_waits begun now zero s = s
  answer_waits begun now (suc n) s = host_to_client p host_side client_side (
      fire begun (now + 2 * suc n)
        (host_repeats p host_side client_side 1 (lose_answer (answer_waits begun now n s))))

  unfoldable pub timed_from : Losses → Pair V → Pair V
  unfolding client_waits host_waits answer_waits
  timed_from losses s =
      let begun = 2 * losses.flashes in
      let t1 = begun in
      let t2 = t1 + 2 * losses.host_keys in
      let t3 = t2 + 2 * losses.client_keys in
      let t4 = t3 + 2 * losses.host_capabilities in
      let s0 = client_waits begun 0 losses.flashes s in
      let s1 = host_waits begun t1 losses.host_keys (client_to_host p host_side client_side s0) in
      let s2 =
        client_waits begun t2 losses.client_keys (host_to_client p host_side client_side s1) in
      let s3 =
        host_waits begun t3 losses.host_capabilities (client_to_host p host_side client_side s2) in
      client_to_host p host_side client_side
        (answer_waits begun t4 losses.answers (host_to_client p host_side client_side s3))

  fire-early : (begun now : ℕ) (s : Pair V) → now < 30 → fire begun now s ≡ s
  unfolding fire
  fire-early begun now s h =
      let client_early : leb 30 now ≡ false = ground arith in
      let host_early : leb (begun + 30) now ≡ false = ground arith in
      simp (client_early, host_early)

  client_waits-early :
      (begun now n : ℕ) (s : Pair V)
      → now + 2 * n < 30
      → client_waits begun now n s ≡ client_repeats p host_side client_side n s
  unfolding client_waits client_repeats repeats
  client_waits-early begun now zero s h = refl
  client_waits-early begun now (suc n) s h =
      fire-early begun (now + 2 * suc n) _ h
      ∙ ap (λ x. client_repeats p host_side client_side 1 x)
          (client_waits-early begun now n s (omega arith))

  host_waits-early :
      (begun now n : ℕ) (s : Pair V)
      → now + 2 * n < 30
      → host_waits begun now n s ≡ host_repeats p host_side client_side n s
  unfolding host_waits host_repeats repeats
  host_waits-early begun now zero s h = refl
  host_waits-early begun now (suc n) s h =
      fire-early begun (now + 2 * suc n) _ h
      ∙ ap (λ x. host_repeats p host_side client_side 1 x)
          (host_waits-early begun now n s (omega arith))

  answer_waits-early :
      (begun now n : ℕ) (s : Pair V)
      → now + 2 * n < 30
      → answer_waits begun now n s ≡ answer_again p host_side client_side n s
  unfolding answer_waits answer_again
  answer_waits-early begun now zero s h = refl
  answer_waits-early begun now (suc n) s h =
      ap (λ x. host_to_client p host_side client_side x)
        (fire-early begun (now + 2 * suc n) _ h
          ∙ ap (λ x. host_repeats p host_side client_side 1 (lose_answer x))
              (answer_waits-early begun now n s (omega arith)))

  -- With fewer than 15 lost copies no deadline fires.
  pub timed_from-early :
      (losses : Losses) (s : Pair V)
      → lost losses < 15
      → timed_from losses s ≡ lossy_from p host_side client_side losses s
  unfolding timed_from lossy_from
  timed_from-early losses s h =
      let t1 = 2 * losses.flashes in
      let t2 = t1 + 2 * losses.host_keys in
      let t3 = t2 + 2 * losses.client_keys in
      let t4 = t3 + 2 * losses.host_capabilities in
      let to_host = λ (x : Pair V). client_to_host p host_side client_side x in
      let to_client = λ (x : Pair V). host_to_client p host_side client_side x in
      let s1 = to_host (client_repeats p host_side client_side losses.flashes s) in
      let s2 = to_client (host_repeats p host_side client_side losses.host_keys s1) in
      let s3 = to_host (client_repeats p host_side client_side losses.client_keys s2) in
      let s4 = to_client (host_repeats p host_side client_side losses.host_capabilities s3) in
      rw
        (
          client_waits-early t1 0 losses.flashes s (omega arith),
          host_waits-early t1 t1 losses.host_keys s1 (omega arith),
          client_waits-early t1 t2 losses.client_keys s2 (omega arith),
          host_waits-early t1 t3 losses.host_capabilities s3 (omega arith),
          answer_waits-early t1 t4 losses.answers s4 (omega arith),
        )
        refl

-- The handshake of a host and a client, with the deadlines.
unfoldable pub timed_run : {V : Type 0} → Platform V → Side → Side → Losses → Pairing → Pair V
timed_run p host_side client_side losses m =
    timed_from p host_side client_side losses (set_up_both p host_side client_side m)

module _ {V : Type 0} (p : Platform V) (laws : PlatformLaws p) (m : Pairing)
    (fine : PairingLaws p.crypto m) (host_side : Side) (host_works : SideLaws host_side)
    (client_side : Side) (client_works : SideLaws client_side) where
  -- Under the laws of the primitives and of JSON, with valid capabilities, a common secret and
  -- working channels: where fewer than 15 copies of the handshake's frames are lost in all, each at
  -- the cost of the two seconds until the next copy, also of the client's answer, which only the
  -- repeated capabilities of the host call for again, no deadline of 30 seconds fires first, and the
  -- handshake leaves both sides in the encrypted state, each with the key and the capabilities of the
  -- other, and without a handshake task.
  pub handshake_in_time :
      (losses : Losses)
      → lost losses < 15
      → IsLinked p.crypto m (timed_run p host_side client_side losses m)
  unfolding timed_run lossy_run
  handshake_in_time losses few =
      rw
        (timed_from-early p host_side client_side losses (set_up_both p host_side client_side m)
          few)
        (lossy_completes p laws m fine host_side host_works client_side client_works losses)
