-- ===== src/Channel/Flags.antt =====
-- The flags and the states of a channel (fiber/src/fiber/channel.rs). A `bitflags` type is a record
-- with a Boolean for each of its single bits; a named union of bits is the test for all of them.
use ai_ckb_backend.Common.{Bool, true, false, ◌&&◌}

pub record NegotiatingFundingFlags : Type 0 where
  pub our_init_sent : Bool
  pub their_init_sent : Bool

pub record CollaboratingFundingTxFlags : Type 0 where
  pub awaiting_remote_tx_collaboration_msg : Bool
  pub preparing_local_tx_collaboration_msg : Bool
  pub our_tx_complete_sent : Bool
  pub their_tx_complete_sent : Bool

pub record SigningCommitmentFlags : Type 0 where
  pub our_commitment_signed_sent : Bool
  pub their_commitment_signed_sent : Bool

pub record AwaitingTxSignaturesFlags : Type 0 where
  pub our_tx_signatures_sent : Bool
  pub their_tx_signatures_sent : Bool

pub record AwaitingChannelReadyFlags : Type 0 where
  pub our_channel_ready : Bool
  pub their_channel_ready : Bool

pub record ShuttingDownFlags : Type 0 where
  pub our_shutdown_sent : Bool
  pub their_shutdown_sent : Bool
  pub dropping_pending : Bool
  pub waiting_commitment_confirmation : Bool

pub record CloseFlags : Type 0 where
  pub cooperative : Bool
  pub uncooperative : Bool

-- `flags.contains(ShuttingDownFlags::AWAITING_PENDING_TLCS)`
abbrev pub awaiting_pending_tlcs : ShuttingDownFlags → Bool
awaiting_pending_tlcs f = f.our_shutdown_sent && f.their_shutdown_sent

pub data ChannelState : Type 0 where
  negotiating_funding : NegotiatingFundingFlags → ChannelState
  collaborating_funding_tx : CollaboratingFundingTxFlags → ChannelState
  signing_commitment : SigningCommitmentFlags → ChannelState
  awaiting_tx_signatures : AwaitingTxSignaturesFlags → ChannelState
  awaiting_channel_ready : AwaitingChannelReadyFlags → ChannelState
  channel_ready : ChannelState
  shutting_down : ShuttingDownFlags → ChannelState
  closed : CloseFlags → ChannelState

abbrev pub is_closed : ChannelState → Bool
is_closed (closed f) = true
is_closed _ = false
