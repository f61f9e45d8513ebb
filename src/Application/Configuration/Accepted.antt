-- ===== src/Application/Configuration/Accepted.antt =====
-- Which options application/configuration.cpp accepts.
use discnet.Common.{
  ℕ, ◌≤◌, ◌≡◌, refl, ap, sym, subst, ◌∙◌, ◌↔◌, ◌⊎◌, inl, inr, arith, Bool, leb, lt→leb, leb→lt,
  leb→le, List, [], Option, none, some, Option-cases, Bool-cases, Text, text_less, find, is_some,
  if◌then◌else◌,
}
use discnet.Application.Configuration.{
  Value, of_uint16, of_string, of_flag, Variables, Expected, value, unexpected, Error,
  ProgramOptions, Configuration, ◌>>=◌, help, g_help, g_node_id, g_multicast_address,
  g_multicast_port, log_name, as_uint16, as_string, converted, value_or, get_command_line_argument,
  count, get_node_id, checked_address, get_multicast_address, get_multicast_port, read_options,
  parsed_options, get_configuration, description, multicast_address_not_set,
}

-- The two numbers are read in the same way, but for their errors.
abbrev number : Error → Error → Option Value → Expected ℕ
number invalid not_set o =
    if is_some o
    then if leb (value_or as_uint16 o 0) 0
      then unexpected invalid
      else value (value_or as_uint16 o 0)
    else unexpected not_set

value-injective : {A : Type 0} {a b : A} → value a ≡ value b → a ≡ b
value-injective e = cc e

number-value :
    (i e : Error) (o : Option Value) (n : ℕ)
    → number i e o ≡ value n
    → (o ≡ some (of_uint16 n)) × 1 ≤ n
unfolding value_or converted as_uint16 is_some
number-value i e none n h = absurd (cc h)
number-value i e (some (of_uint16 m)) n h = elim (Bool-cases (leb m 0)) [
  | inl low ↦ absurd (cc (low, h))
  | inr high ↦
      let same : m ≡ n =
        value-injective (sym (ap (λ (b : Bool). if b then unexpected i else value m) high) ∙ h) in
      (ap (λ k. some (of_uint16 k)) same, subst (λ k. 1 ≤ k) same (leb→lt m 0 high))
]
number-value i e (some (of_string t)) n h = absurd (cc h)
number-value i e (some of_flag) n h = absurd (cc h)

value-number : (i e : Error) (n : ℕ) → 1 ≤ n → number i e (some (of_uint16 n)) ≡ value n
unfolding value_or converted as_uint16 is_some
value-number i e n h = rw (lt→leb n 0 h) refl

checked_address-value : (m : Option ℕ) (a : ℕ) → checked_address m ≡ value a → m ≡ some a
unfolding checked_address
checked_address-value (some b) a h = ap some (value-injective h)
checked_address-value none a h = absurd (cc h)

address-value :
    (o : ProgramOptions) (v : Option Value) (a : ℕ)
    → (if is_some v
        then checked_address (o.make_address_v4 (value_or as_string v []))
        else unexpected multicast_address_not_set)
      ≡ value a
    → (w : Value) × (v ≡ some w) × (o.make_address_v4 (converted (as_string w) []) ≡ some a)
unfolding is_some value_or
address-value o none a h = absurd (cc h)
address-value o (some w) a h = (w, refl, checked_address-value _ a h)

>>=-value :
    {A B : Type 0} (m : Expected A) (f : A → Expected B) (b : B)
    → (m >>= f) ≡ value b
    → (a : A) × (m ≡ value a) × (f a ≡ value b)
>>=-value (value a) f b h = (a, refl, h)
>>=-value (unexpected e) f b h = absurd (cc h)

-- The options that give the configuration `c`: no help, a node and a port that are numbers from 1,
-- and an address that `make_address_v4` reads.
pub record IsAccepted (o : ProgramOptions) (variables : Variables) (c : Configuration)
    : Type 0 where
  pub no_help : find text_less g_help variables ≡ none
  pub node_id_set : find text_less g_node_id variables ≡ some (of_uint16 c.node_id)
  pub node_id_positive : 1 ≤ c.node_id
  pub address : Value
  pub address_set : find text_less g_multicast_address variables ≡ some address
  pub address_valid :
      o.make_address_v4 (converted (as_string address) []) ≡ some c.multicast_address
  pub port_set : find text_less g_multicast_port variables ≡ some (of_uint16 c.multicast_port)
  pub port_positive : 1 ≤ c.multicast_port
  pub log_instance : c.log_instance_id ≡ log_name

read_options-IsAccepted :
    (o : ProgramOptions) (variables : Variables) (c : Configuration)
    → find text_less g_help variables ≡ none
    → read_options o variables ≡ value c
    → IsAccepted o variables c
unfolding read_options get_node_id get_multicast_address get_multicast_port count
    get_command_line_argument
read_options-IsAccepted o variables c no_help h =
    let (node, node_read, h1) = >>=-value (get_node_id variables) _ c h in
    let (address, address_read, h2) = >>=-value (get_multicast_address o variables) _ c h1 in
    let (port, port_read, h3) = >>=-value (get_multicast_port variables) _ c h2 in
    let (node_set, node_positive) =
      number-value _ _ (find text_less g_node_id variables) node node_read in
    let (port_set, port_positive) =
      number-value _ _ (find text_less g_multicast_port variables) port port_read in
    let (v, address_set, address_valid) =
      address-value o (find text_less g_multicast_address variables) address address_read in
    subst (IsAccepted o variables) (value-injective h3) (record {
      no_help = no_help;
      node_id_set = node_set;
      node_id_positive = node_positive;
      address = v;
      address_set = address_set;
      address_valid = address_valid;
      port_set = port_set;
      port_positive = port_positive;
      log_instance = refl;
    })

IsAccepted-read_options :
    (o : ProgramOptions) (variables : Variables) (c : Configuration)
    → IsAccepted o variables c
    → read_options o variables ≡ value c
unfolding read_options get_node_id get_multicast_address get_multicast_port count
    get_command_line_argument is_some value_or checked_address converted as_uint16
IsAccepted-read_options o variables c a =
    rw
      (
        a.node_id_set,
        a.address_set,
        a.port_set,
        lt→leb c.node_id 0 a.node_id_positive,
        a.address_valid,
        lt→leb c.multicast_port 0 a.port_positive,
        a.log_instance,
      )
      refl

parsed_options-IsAccepted :
    (o : ProgramOptions) (parsed : Text ⊎ Variables) (c : Configuration)
    → parsed_options o parsed ≡ value c
    → (variables : Variables) × (parsed ≡ inr variables) × IsAccepted o variables c
unfolding parsed_options count is_some
parsed_options-IsAccepted o (inl reason) c h = absurd (cc h)
parsed_options-IsAccepted o (inr variables) c h =
    elim (Option-cases (find text_less g_help variables)) [
      | inl absent ↦ (
        variables,
        refl,
        read_options-IsAccepted o variables c absent (
            sym (
              ap
                (λ (v : Option Value).
                  if is_some v then unexpected (help description) else read_options o variables)
                absent)
            ∙ h),
      )
      | inr (v, found) ↦ absurd (cc (found, h))
    ]

IsAccepted-parsed_options :
    (o : ProgramOptions) (variables : Variables) (c : Configuration)
    → IsAccepted o variables c
    → parsed_options o (inr variables) ≡ value c
unfolding parsed_options count is_some
IsAccepted-parsed_options o variables c a = rw a.no_help (IsAccepted-read_options o variables c a)

-- A configuration is given exactly when there are arguments besides the program's name, they parse,
-- and among the options help is not set, the node and the port are numbers from 1, and the address
-- is one that `make_address_v4` reads; it has these values and the name of the log.
pub get_configuration-IsAccepted :
    (o : ProgramOptions) (n : ℕ) (arguments : List Text) (c : Configuration)
    → (get_configuration o n arguments ≡ value c) ↔ (
        (2 ≤ n)
        × ((variables : Variables) × (o.parse description arguments ≡ inr variables)
            × IsAccepted o variables c))
unfolding get_configuration
get_configuration-IsAccepted o n arguments c = elim (Bool-cases (leb n 1)) [
  | inl few ↦ rw few ((λ h. absurd (cc h)), (λ r. absurd (few_not (leb→le n 1 few) r.0)))
  | inr enough ↦ rw enough (
    (λ h. (leb→lt n 1 enough, parsed_options-IsAccepted o _ c h)),
    (λ r.
        let (variables, parsed, a) = r.1 in rw parsed (IsAccepted-parsed_options o variables c a)),
  )
]
  where
    few_not : n ≤ 1 → 2 ≤ n → ⊥
    few_not p q = omega arith
