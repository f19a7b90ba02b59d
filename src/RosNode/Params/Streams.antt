-- ===== src/RosNode/Params/Streams.antt =====
-- How many streams the receiver is asked for.
use Prim.Native.String.{String}
use rosaic.Prelude.{
  ℕ, suc, ◌+◌, ◌*◌, ◌≡◌, refl, ap, ◌∙◌, arith, Bool, true, false, none, List, [], ◌∷◌, ◌++◌, length,
  length-append,
}
use rosaic.RosNode.{Publish}
use rosaic.CallbackHandlers.State.{Settings}
use rosaic.RosNode.Text.{Text}
use rosaic.RosNode.Configure.{Config, Request, OutputGroup, output_groups, configure_rx}
use rosaic.RosNode.Configure.Outputs.{outputs, active, numbered, relayed, outputs-numbered}
use rosaic.RosNode.Params.{Server, get_ros_params}

length-numbered : (stream : ℕ) (rs : List Request) → length (numbered stream rs) ≡ length rs
unfolding numbered
length-numbered stream [] = refl
length-numbered stream (r ∷ rs) = ap (λ t. suc t) (length-numbered (stream + 1) rs)

abbrev pub as_number : Bool → ℕ
as_number true = 1
as_number false = 0

-- The messages that are published, with four blocks more for a GPSFix and three for the diagnostics.
abbrev pub streams : Publish → Settings → ℕ
streams p s =
    as_number p.gpgga
    + as_number p.gprmc
    + as_number p.gpgsa
    + as_number p.gpgsv
    + as_number p.pvtcartesian
    + as_number p.pvtgeodetic
    + as_number p.poscovcartesian
    + as_number p.poscovgeodetic
    + as_number p.atteuler
    + as_number p.attcoveuler
    + 4 * as_number s.publish_gpsfix
    + 3 * as_number s.publish_diagnostics

length-active :
    (test : Bool) (rs : List Request) (groups : List OutputGroup)
    → length (active ((test, rs) ∷ groups)) ≡ as_number test * length rs + length (active groups)
unfolding active
length-active true rs groups = omega (arith, length-append rs (active groups))
length-active false rs groups = omega arith

count : List OutputGroup → ℕ
count [] = 0
count ((test, rs) ∷ groups) = as_number test * length rs + count groups

length-count : (groups : List OutputGroup) → length (active groups) ≡ count groups
unfolding count active
length-count [] = refl
length-count ((test, rs) ∷ groups) =
    length-active test rs groups ∙ ap (λ t. as_number test * length rs + t) (length-count groups)

count-streams : (p : Publish) (s : Settings) → count (output_groups p s) ≡ streams p s
unfolding count
count-streams p s = omega arith

-- The number of streams that `configureRx` asks for.
streams_asked :
    (c : Config) (port : Text)
    → length (outputs port (configure_rx c)) ≡ streams c.publish c.settings + length (relayed c)
streams_asked c port =
    let rs = active (output_groups c.publish c.settings) in
    ap (λ t. length t) (outputs-numbered c port)
    ∙ length-numbered 1 (rs ++ relayed c)
    ∙ length-append rs (relayed c)
    ∙ ap (λ t. t + length (relayed c))
        (length-count (output_groups c.publish c.settings) ∙ count-streams c.publish c.settings)

-- On a server that sets none of the Boolean parameters, whatever else it sets, the driver asks for 17
-- streams of the receiver, and over TCP for one more.
pub default_streams :
    (server : Server) (tcp : Bool) (port : Text)
    → ((key : String) → server.bools key ≡ none)
    → length (outputs port (configure_rx (get_ros_params server tcp))) ≡ 17 + as_number tcp
unfolding get_ros_params
default_streams server true port unset =
    streams_asked (get_ros_params server true) port ∙ simp unset refl
default_streams server false port unset =
    streams_asked (get_ros_params server false) port ∙ simp unset refl
