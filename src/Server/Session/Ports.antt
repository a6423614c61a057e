-- ===== src/Server/Session/Ports.antt =====
-- server/src/session.rs, allocate_port: the ports that offers are given.
use vmscren_share.Prelude.{
  ℕ, zero, suc, ◌+◌, ◌≤◌, ◌<◌, ◌≡◌, refl, sym, ap, ◌∙◌, List, [], ◌∷◌, arith,
}
use vmscren_share.Server.Input.{InputSink}
use vmscren_share.Server.Session.{SessionManager, clamp, next_port_after, allocate_port}

-- The numbers from one on, as many as are asked for.
abbrev pub range : ℕ → ℕ → List ℕ
range from zero = []
range from (suc n) = from ∷ range (suc from) n

module _ (input : InputSink) where
  abbrev pub allocate_ports : ℕ → SessionManager input → SessionManager input × List ℕ
  allocate_ports zero m = (m, [])
  allocate_ports (suc n) m =
      let (m', port) = allocate_port input m in
      let (m'', ports) = allocate_ports n m' in (m'', port ∷ ports)

  abbrev pub InRange : SessionManager input → Type 0
  InRange m =
      (m.config.network.udp_port_min ≤ m.next_port) × (m.next_port ≤ m.config.network.udp_port_max)

  allocate_port-InRange :
      (m : SessionManager input)
      → InRange m
      → allocate_port input m ≡ (
        record m {
          next_port =
              next_port_after m.config.network.udp_port_min m.config.network.udp_port_max
                m.next_port;
        },
        m.next_port,
      )
  unfolding allocate_port
  allocate_port-InRange m h =
      let same : clamp m.next_port m.config.network.udp_port_min m.config.network.udp_port_max
          ≡ m.next_port =
        omega (arith, h.0, h.1) in
      rw same refl

  -- As many allocations as are left up to the last port give these ports in order, and the manager
  -- is then back at the first port of its range.
  allocate_ports-rest :
      (k : ℕ) (m : SessionManager input)
      → m.config.network.udp_port_min ≤ m.next_port
      → m.next_port + k ≡ m.config.network.udp_port_max
      → allocate_ports (suc k) m
        ≡ (record m { next_port = m.config.network.udp_port_min }, range m.next_port (suc k))
  unfolding next_port_after
  allocate_ports-rest zero m low last =
      rw
        (
          allocate_port-InRange m (low, omega arith),
          last_port m.next_port m.config.network.udp_port_min m.config.network.udp_port_max last,
        )
        refl
    where
      last_port : (port low high : ℕ) → port + 0 ≡ high → next_port_after low high port ≡ low
      last_port port low high h = ground arith
  allocate_ports-rest (suc k) m low last =
      ap (λ step. let (m', ports) = allocate_ports (suc k) step.0 in (m', step.1 ∷ ports))
        (allocate_port-InRange m (low, omega arith)
          ∙ ap (λ p. (record m { next_port = p }, m.next_port))
              (not_last m.next_port m.config.network.udp_port_min m.config.network.udp_port_max
                (omega arith)))
      ∙ ap (λ rest. (rest.0, m.next_port ∷ rest.1))
          (allocate_ports-rest k (record m { next_port = suc m.next_port }) (omega arith)
            (omega arith))
    where
      not_last : (port low high : ℕ) → port < high → next_port_after low high port ≡ suc port
      not_last port low high h = ground arith

  -- From the first port of a range that is not empty, allocating once for every port of the range
  -- gives each of them once, in order, and leaves the manager as it was.
  pub allocate_ports-round :
      (m : SessionManager input) (k : ℕ)
      → m.next_port ≡ m.config.network.udp_port_min
      → m.config.network.udp_port_min + k ≡ m.config.network.udp_port_max
      → allocate_ports (suc k) m ≡ (m, range m.config.network.udp_port_min (suc k))
  allocate_ports-round m k first last =
      allocate_ports-rest k m (omega arith) (omega arith)
      ∙ ap (λ p. (record m { next_port = m.config.network.udp_port_min }, range p (suc k))) first
      ∙ ap (λ p. (record m { next_port = p }, range m.config.network.udp_port_min (suc k)))
          (sym first)
