-- ===== src/Application/Configuration.antt =====
-- application/configuration.cpp: the configuration that the options of the command line give.
-- boost::program_options and make_address_v4 are parameters; an error is a constructor in place of
-- its text.
pub mod Accepted
mod Tests
use discnet.Common.{
  ℕ, ◌==◌, leb, Bool, true, false, if◌then◌else◌, List, [], ◌∷◌, Option, none, some, Text,
  text_less, find, is_some, ◌⊎◌, inl, inr,
}

-- What `variables_map` holds for an option: `uint16_t`, `std::string`, or nothing for a flag.
pub data Value : Type 0 where
  of_uint16 : ℕ → Value
  of_string : Text → Value
  of_flag : Value

-- The type that an option is described with.
pub data ValueType : Type 0 where
  uint16_value string_value no_value : ValueType

abbrev pub Variables : Type 0
Variables = List (Text × Value)

abbrev pub Description : Type 0
Description = List (Text × ValueType)

-- The messages of `std::unexpected`.
pub data Error : Type 0 where
  arguments_missing node_id_invalid node_id_not_set : Error
  multicast_address_invalid multicast_address_not_set : Error
  multicast_port_invalid multicast_port_not_set : Error
  parse_failed : Text → Error
  help : Description → Error

pub data Expected (A : Type 0) : Type 0 where
  value : A → Expected A
  unexpected : Error → Expected A

infixl 5 ◌>>=◌
abbrev pub ◌>>=◌ : {A B : Type 0} → Expected A → (A → Expected B) → Expected B
value a >>= f = f a
unexpected e >>= f = unexpected e

-- What is called: `parse_command_line` with `store`, that gives the variables or throws with a
-- reason, and `make_address_v4`, that is `none` where it sets the error.
pub record ProgramOptions : Type 0 where
  pub parse : Description → List Text → Text ⊎ Variables
  pub make_address_v4 : Text → Option ℕ

-- `configuration_t`.
pub record Configuration : Type 0 where
  pub node_id : ℕ
  pub multicast_address : ℕ
  pub multicast_port : ℕ
  pub log_instance_id : Text

-- The names: help, node_id, address and port.
abbrev pub g_help : Text
g_help = 104 ∷ 101 ∷ 108 ∷ 112 ∷ []

abbrev pub g_node_id : Text
g_node_id = 110 ∷ 111 ∷ 100 ∷ 101 ∷ 95 ∷ 105 ∷ 100 ∷ []

abbrev pub g_multicast_address : Text
g_multicast_address = 97 ∷ 100 ∷ 100 ∷ 114 ∷ 101 ∷ 115 ∷ 115 ∷ []

abbrev pub g_multicast_port : Text
g_multicast_port = 112 ∷ 111 ∷ 114 ∷ 116 ∷ []

-- "discnet".
abbrev pub log_name : Text
log_name = 100 ∷ 105 ∷ 115 ∷ 99 ∷ 110 ∷ 101 ∷ 116 ∷ []

-- `as<T>()`, that throws for a value of another type.
unfoldable pub as_uint16 : Value → Option ℕ
as_uint16 (of_uint16 n) = some n
as_uint16 (of_string t) = none
as_uint16 of_flag = none

unfoldable pub as_string : Value → Option Text
as_string (of_uint16 n) = none
as_string (of_string t) = some t
as_string of_flag = none

-- The default stands where the option is not set and where the conversion throws.
unfoldable pub converted {ℓ} : {A : Type ℓ} → Option A → A → A
converted (some a) default_value = a
converted none default_value = default_value

unfoldable pub value_or {ℓ} : {A : Type ℓ} → (Value → Option A) → Option Value → A → A
value_or as_type (some v) default_value = converted (as_type v) default_value
value_or as_type none default_value = default_value

unfoldable pub get_command_line_argument {ℓ} :
    {A : Type ℓ} → (Value → Option A) → Text → Variables → A → A
get_command_line_argument as_type name variables default_value =
    value_or as_type (find text_less name variables) default_value

unfoldable pub count : Text → Variables → Bool
count name variables = is_some (find text_less name variables)

-- `add_options`.
unfoldable pub description : Description
description =
    (g_help, no_value)
    ∷ (g_node_id, uint16_value)
    ∷ (g_multicast_address, string_value)
    ∷ (g_multicast_port, uint16_value)
    ∷ []

unfoldable pub get_node_id : Variables → Expected ℕ
get_node_id variables =
    let node_id = get_command_line_argument as_uint16 g_node_id variables 0 in
    if count g_node_id variables
    then if leb node_id 0 then unexpected node_id_invalid else value node_id
    else unexpected node_id_not_set

unfoldable pub checked_address : Option ℕ → Expected ℕ
checked_address (some address) = value address
checked_address none = unexpected multicast_address_invalid

unfoldable pub get_multicast_address : ProgramOptions → Variables → Expected ℕ
get_multicast_address o variables =
    let multicast_address = get_command_line_argument as_string g_multicast_address variables [] in
    if count g_multicast_address variables
    then checked_address (o.make_address_v4 multicast_address)
    else unexpected multicast_address_not_set

unfoldable pub get_multicast_port : Variables → Expected ℕ
get_multicast_port variables =
    let multicast_port = get_command_line_argument as_uint16 g_multicast_port variables 0 in
    if count g_multicast_port variables
    then if leb multicast_port 0 then unexpected multicast_port_invalid else value multicast_port
    else unexpected multicast_port_not_set

-- The checks behind the one for help.
unfoldable pub read_options : ProgramOptions → Variables → Expected Configuration
read_options o variables = do
  node_id ← get_node_id variables
  multicast_address ← get_multicast_address o variables
  multicast_port ← get_multicast_port variables
  value (record {
    node_id = node_id;
    multicast_address = multicast_address;
    multicast_port = multicast_port;
    log_instance_id = log_name;
  })

unfoldable pub parsed_options : ProgramOptions → Text ⊎ Variables → Expected Configuration
parsed_options o (inl reason) = unexpected (parse_failed reason)
parsed_options o (inr variables) =
    if count g_help variables then unexpected (help description) else read_options o variables

-- `arguments_count` and the vector, that has the program's name first.
unfoldable pub get_configuration : ProgramOptions → ℕ → List Text → Expected Configuration
get_configuration o arguments_count arguments_vector =
    if leb arguments_count 1
    then unexpected arguments_missing
    else parsed_options o (o.parse description arguments_vector)
