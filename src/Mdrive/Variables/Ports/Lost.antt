-- ===== src/Mdrive/Variables/Ports/Lost.antt =====
-- drivers/mdrive/query.c: what mdrive_io_poke keeps of a change.
use mcontrol.Base.{ℕ, ◌≡◌, refl, ap, List, ltb, if_cases}
use mcontrol.Mdrive.Dialogue.{Transmit}
use mcontrol.Mdrive.Axis.{Axis}
use mcontrol.Mdrive.Variables.{Query}
use mcontrol.Mdrive.Variables.Ports.{IoConfig, port_of, io_poke}

poke_kept :
    (transmit : Transmit) (q : Query) (ios : List IoConfig) (u : Axis)
    → (io_poke transmit q ios u).1.0 ≡ ios
unfolding io_poke
poke_kept transmit q ios u =
    let port = port_of q.arg_number in
    if_cases {A = ℕ × (List IoConfig × Axis)} (λ t. t.1.0 ≡ ios) (ltb port 1) _ _ (λ e. refl)
      λ e.
        if_cases {A = ℕ × (List IoConfig × Axis)} (λ t. t.1.0 ≡ ios) (ltb 5 port) _ _ (λ f. refl)
          (λ f. refl)

-- A port is set up in two requests, its parameter first and its type last, so that the unit would be
-- told once: the parameter is lost. Whatever the first request came to, the second one does what it
-- would do with the configuration from before.
pub io_poke-io_poke :
    (transmit : Transmit) (parameter type : Query) (ios : List IoConfig) (u : Axis)
    → let first = io_poke transmit parameter ios u in
      io_poke transmit type first.1.0 first.1.1 ≡ io_poke transmit type ios first.1.1
io_poke-io_poke transmit parameter type ios u =
    let first = io_poke transmit parameter ios u in
    ap (λ l. io_poke transmit type l first.1.1) (poke_kept transmit parameter ios u)
