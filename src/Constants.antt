-- ===== src/Constants.antt =====
-- src/ax_interface/constants.py: the numbers of the protocol and the two enumerations.
use sonic_snmpagent.Prelude.{
  ℕ, List, [], ◌∷◌, Result, ok, err, value_error, ◌==◌, if◌then◌else◌, ◌≡◌, refl,
}

abbrev pub agentx_header_length : ℕ
agentx_header_length = 20

abbrev pub agentx_minimum_pdu_size : ℕ
agentx_minimum_pdu_size = agentx_header_length

abbrev pub internet_prefix : List ℕ
internet_prefix = 1 ∷ 3 ∷ 6 ∷ 1 ∷ []

abbrev pub default_pdu_timeout : ℕ
default_pdu_timeout = 5

abbrev pub update_frequency_rate : ℕ
update_frequency_rate = 10

abbrev pub max_update_interval : ℕ
max_update_interval = 60

pub data ValueType : Type 0 where
  integer octet_string null object_identifier ip_address counter_32 gauge_32 : ValueType
  time_ticks opaque counter_64 no_such_object no_such_instance end_of_mib_view : ValueType

unfoldable pub type_code : ValueType → ℕ
type_code integer = 2
type_code octet_string = 4
type_code null = 5
type_code object_identifier = 6
type_code ip_address = 64
type_code counter_32 = 65
type_code gauge_32 = 66
type_code time_ticks = 67
type_code opaque = 68
type_code counter_64 = 70
type_code no_such_object = 128
type_code no_such_instance = 129
type_code end_of_mib_view = 130

-- `ValueType(n)`
unfoldable pub value_type : ℕ → Result ValueType
value_type n =
    if n == 2
    then ok integer
    else if n == 4
    then ok octet_string
    else if n == 5
    then ok null
    else if n == 6
    then ok object_identifier
    else if n == 64
    then ok ip_address
    else if n == 65
    then ok counter_32
    else if n == 66
    then ok gauge_32
    else if n == 67
    then ok time_ticks
    else if n == 68
    then ok opaque
    else if n == 70
    then ok counter_64
    else if n == 128
    then ok no_such_object
    else if n == 129
    then ok no_such_instance
    else if n == 130
    then ok end_of_mib_view
    else err value_error

pub value_type-type_code : (t : ValueType) → value_type (type_code t) ≡ ok t
unfolding value_type type_code
value_type-type_code integer = refl
value_type-type_code t = refl

pub data PduTypes : Type 0 where
  empty open_ close register unregister get get_next get_bulk test_set commit_set : PduTypes
  undo_set cleanup_set notify ping index_allocate index_deallocate add_agent_caps : PduTypes
  remove_agent_caps response : PduTypes

unfoldable pub pdu_code : PduTypes → ℕ
pdu_code empty = 0
pdu_code open_ = 1
pdu_code close = 2
pdu_code register = 3
pdu_code unregister = 4
pdu_code get = 5
pdu_code get_next = 6
pdu_code get_bulk = 7
pdu_code test_set = 8
pdu_code commit_set = 9
pdu_code undo_set = 10
pdu_code cleanup_set = 11
pdu_code notify = 12
pdu_code ping = 13
pdu_code index_allocate = 14
pdu_code index_deallocate = 15
pdu_code add_agent_caps = 16
pdu_code remove_agent_caps = 17
pdu_code response = 18
