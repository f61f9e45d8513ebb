-- ===== src/Application/Configuration/Tests.antt =====
-- Options as the command line gives them.
use discnet.Common.{◌≤◌, ◌≡◌, refl, inr, [], ◌∷◌, some, text_less, find, is_some, equivalent}
use discnet.Application.Configuration.{
  of_uint16, of_string, Variables, value, unexpected, ProgramOptions, Configuration, g_node_id,
  g_multicast_address, g_multicast_port, log_name, get_configuration, parsed_options, read_options,
  count, get_node_id, get_multicast_address, get_multicast_port, get_command_line_argument,
  value_or, converted, as_uint16, as_string, checked_address, description, arguments_missing,
}
use discnet.Application.Configuration.Accepted.{get_configuration-IsAccepted, IsAccepted}

abbrev given : Variables
given =
    (g_node_id, of_uint16 1010)
    ∷ (g_multicast_address, of_string (50 ∷ []))
    ∷ (g_multicast_port, of_uint16 1337)
    ∷ []

-- A parser that finds the same options in every command line.
abbrev options : ProgramOptions
options = record { parse = λ d arguments. inr given; make_address_v4 = λ t. some 4026531841 }

abbrev configured : Configuration
configured = record {
  node_id = 1010;
  multicast_address = 4026531841;
  multicast_port = 1337;
  log_instance_id = log_name;
}

configured_example : get_configuration options 7 [] ≡ value configured
unfolding get_configuration parsed_options read_options count get_node_id get_multicast_address
    get_multicast_port get_command_line_argument value_or converted as_uint16 as_string
    checked_address is_some find equivalent text_less
configured_example = refl

too_few : get_configuration options 1 [] ≡ unexpected arguments_missing
unfolding get_configuration
too_few = refl

get_configuration-IsAccepted_example :
    (2 ≤ 7)
    × ((variables : Variables) × (options.parse description [] ≡ inr variables)
        × IsAccepted options variables configured)
get_configuration-IsAccepted_example =
    (get_configuration-IsAccepted options 7 [] configured).0 configured_example
