-- ===== src/Layer/Meeting/Lossy.antt =====
-- Two layers that meet over channels that lose frames: the repeating tasks send each frame again.
-- A copy that is sent after the next frame arrived has no part here. The time is in Timed.
pub mod Repeats
pub mod Stages
pub mod Recovery
pub mod Timed
use openlv_rs.Prelude.{ℕ, zero, suc, []}
use openlv_rs.Layer.State.{Layer, Platform}
use openlv_rs.Layer.Sending.{repeat_once}
use openlv_rs.Layer.Meeting.{
  Side, on_side, Pairing, Pair, set_up_both, client_to_host, host_to_client,
}

-- How many copies of each frame are lost before one arrives; `answers` counts the losses of the
-- last frame, the capabilities of the client, which no task repeats.
pub record Losses : Type 0 where
  pub flashes : ℕ
  pub host_keys : ℕ
  pub client_keys : ℕ
  pub host_capabilities : ℕ
  pub answers : ℕ

-- The channel loses what a side has published: no frame of it is left that could arrive.
abbrev pub lose : {V : Type 0} → Layer V → Layer V
lose l = record l { trace = record l.trace { published = [] } }

-- The last answer of the client is lost.
abbrev pub lose_answer : {V : Type 0} → Pair V → Pair V
lose_answer s = record s { client = lose s.client }

module _ {V : Type 0} (p : Platform V) where
  -- Rounds of the repeating task of one side, each behind the loss of the copy before it.
  pub repeats : Side → ℕ → Layer V → Layer V
  repeats side zero l = l
  repeats side (suc n) l = repeat_once (on_side p side) (lose (repeats side n l))

  module _ (host_side client_side : Side) where
    pub host_repeats : ℕ → Pair V → Pair V
    unfolding repeats
    host_repeats n s = record s { host = repeats host_side n s.host }

    pub client_repeats : ℕ → Pair V → Pair V
    unfolding repeats
    client_repeats n s = record s { client = repeats client_side n s.client }

    -- The client's capabilities are lost; the host repeats its own, and the client answers again.
    pub answer_again : ℕ → Pair V → Pair V
    unfolding host_repeats
    answer_again zero s = s
    answer_again (suc n) s =
        host_to_client p host_side client_side
          (host_repeats (suc zero) (lose_answer (answer_again n s)))

    -- The handshake of two layers that were set up, with no regard to the time that it takes.
    unfoldable pub lossy_from : Losses → Pair V → Pair V
    lossy_from losses s =
        let s0 = client_repeats losses.flashes s in
        let s1 = host_repeats losses.host_keys (client_to_host p host_side client_side s0) in
        let s2 = client_repeats losses.client_keys (host_to_client p host_side client_side s1) in
        let s3 =
          host_repeats losses.host_capabilities (client_to_host p host_side client_side s2) in
        client_to_host p host_side client_side
          (answer_again losses.answers (host_to_client p host_side client_side s3))

    unfoldable pub lossy_run : Losses → Pairing → Pair V
    lossy_run losses m = lossy_from losses (set_up_both p host_side client_side m)
