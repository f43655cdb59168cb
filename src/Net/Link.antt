-- ===== src/Net/Link.antt =====
-- What the Internet layer needs from below, as an interface: address resolution, the polling of the
-- card, the clock and the sending of a frame. A poll can receive packets, and what handles
-- them may use the Internet layer again, so that its state is a part of the state below.
use gannet_os.Base.{ℕ, Bool, Option, List}

-- The static variables of ipv4.c.
pub record Ipv4 : Type 0 where
  pub local_ip : ℕ
  pub next_id : ℕ
  pub gateway_ip : ℕ
  pub subnet_mask : ℕ

pub record Link : Type 1 where
  pub State : Type 0
  pub get_ipv4 : State → Ipv4
  pub put_ipv4 : Ipv4 → State → State
  pub arp_resolve : ℕ → State → Option (List ℕ) × State
  -- `ethernet_poll(); task_yield();`
  pub poll : State → State
  pub pit_ticks : State → ℕ
  pub ethernet_send : (dest_mac : List ℕ) (ethertype : ℕ) (payload : List ℕ) → State → Bool × State
