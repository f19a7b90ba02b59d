-- ===== src/RosNode/Configure/Tests.antt =====
-- A receiver over TCP that gets all from the driver, after its two descriptors have come.
use rosaic.Prelude.{◌≡◌, refl, true, [], ◌++◌, some}
use rosaic.CallbackHandlers.{got_descriptor}
use rosaic.CallbackHandlers.Tests.{handlers}
use rosaic.RosNode.{define_messages}
use rosaic.RosNode.Text.{codes}
use rosaic.RosNode.Configure.{Config, output_groups, configure_rx}
use rosaic.RosNode.Configure.Outputs.{outputs, active, numbered, relayed, outputs-numbered}
use rosaic.RosNode.Configure.Handled.{received_keys, requested_keys, requested_handled}
use rosaic.RosNode.Configure.Receiver.{
  Link, IsFresh, Reach, begin, after, start_link, link_step, described, at_message,
}
use rosaic.RosNode.Configure.Receiver.InTurn.{under_way, IsInTurn, Reach-IsInTurn}
use rosaic.RosNode.Configure.Receiver.Completes.{CanEnd, configure_rx-CanEnd}
use rosaic.RosNode.Params.{get_ros_params, publish_params, main_params}
use rosaic.RosNode.Params.Tests.{bare_server}

abbrev config : Config
config = get_ros_params bare_server true

outputs-numbered_example :
    outputs (codes "IP10") (configure_rx config)
    ≡ numbered 1 (active (output_groups config.publish config.settings) ++ relayed config)
outputs-numbered_example = outputs-numbered config (codes "IP10")

requested_handled_example :
    received_keys (define_messages (publish_params bare_server) (main_params bare_server) [])
    ≡ requested_keys (active (output_groups (publish_params bare_server) (main_params bare_server)))
requested_handled_example = requested_handled (publish_params bare_server) (main_params bare_server)

handlers-IsFresh : IsFresh handlers
handlers-IsFresh = record { no_response = refl; no_cd = refl; none_counted = refl }

-- The first descriptor comes before the escape sequence.
abbrev one_described : Link
one_described = record (start_link config handlers) {
  descriptors = 1;
  handlers = got_descriptor (at_message handlers.node.rx handlers);
}

described_first :
    link_step (start_link config handlers) (described handlers.node.rx) ≡ some one_described
unfolding link_step get_ros_params
described_first = refl

one_described-Reach : Reach config one_described
one_described-Reach =
    after (begin handlers handlers-IsFresh) (described handlers.node.rx) described_first

Reach-IsInTurn_example : IsInTurn one_described.script (under_way one_described)
Reach-IsInTurn_example = Reach-IsInTurn config one_described one_described-Reach

configure_rx-CanEnd_example : CanEnd one_described
configure_rx-CanEnd_example = configure_rx-CanEnd config one_described one_described-Reach
