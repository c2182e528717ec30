-- ===== src/Lib.antt =====
-- sonic-snmpagent: the SNMP sub-agent of SONiC, which serves MIBs to a master agent over AgentX
-- (RFC 2741).
--
-- The package src/ax_interface speaks the protocol and holds the tables, the package
-- src/sonic_ax_impl holds the MIBs, whose handlers read Redis databases. A connection
-- (protocol.py) turns received bytes into PDUs (pdu.py, pdu_implementations.py, with the data
-- types of encodings.py), asks the MIB table (mib.py) for each search range of a request and writes
-- the response. The first response opens the session and registers each prefix of the table. In the
-- background the updaters (mib.py) refresh the data that the handlers give.
--
-- Files and the code they model:
-- Constants: src/ax_interface/constants.py. Util, Util/Text: src/ax_interface/util.py, the paddings,
-- the update interval and the OIDs from strings; Util/Mac, Util/Ip: the MAC and IP addresses.
-- Struct: Python's struct module, as far as the code uses it; bytes are lists of numbers.
-- Encodings/Oid, Range, Octets, Value: the classes ObjectIdentifier, SearchRange, OctetString and
-- ValueRepresentation of src/ax_interface/encodings.py, function by function under their names.
-- Order: Python's order on tuples, sorted and bisect.
-- Mib/Entry, Mib/Table: the entry classes and MIBTable of src/ax_interface/mib.py. The method
-- get_next of the table is get_next_value, its loop is walk. Mib/Find, Mib/Successor, Mib/Get and
-- Mib/Limits hold what is shown of them. Mib/Meta: the metaclass MIBMeta. Mib/Updater: MIBUpdater.
-- Pdu/Header, Pdu/Codec, Pdu/Body, Pdu/Items, Pdu/Make, Pdu/Errors: the classes of src/ax_interface/pdu.py and
-- pdu_implementations.py. One data type Body has a constructor for each class of PDU.
-- Protocol: the class AgentX of src/ax_interface/protocol.py, with the stream of pdu.py; Protocol/Stream
-- has its loop as a relation without a bound on the rounds.
-- Entity: src/sonic_ax_impl/mibs/ietf/physical_entity_sub_oid_generator.py.
-- Socket, Socket/Address, Socket/Connection: parse_socket, get_ip_port and connection_loop of src/ax_interface/socket_io.py.
-- Strings, Dict: Python's strings and dicts, as far as the MIBs use them.
-- Mibs/Keys, Mibs/Namespace, Mibs/Tables, Mibs/OidTree: src/sonic_ax_impl/mibs/__init__.py, its keys,
-- the class Namespace, the init_ functions, and RedisOidTreeUpdater. Mibs/PortUtil: the functions of
-- port_util that it calls, as a record.
-- Mibs/Rows, Mibs/Effect: the dict and the sorted list that the updaters keep, get_next by bisect_right,
-- and the loops that fill them. Mibs/Values: what a callable returns, as a value of a binding.
-- Mibs/Fdb: src/sonic_ax_impl/mibs/ietf/rfc4363.py. Mibs/Route: rfc4292.py beside it. Mibs/Arp,
-- Mibs/NextHop, Mibs/Interfaces, Mibs/Numbers: the updaters of rfc1213.py beside it.
-- Mibs/IfMib: the updater of rfc2863.py; Ended, Fuel and Bounds in it hold what is shown. Mibs/Sensor: rfc3433.py and sensor_data.py; the operations of
-- Python's floats are a parameter. Its children hold the fields that are sensors (Data), the updater
-- (Sources, Update) and the callables of the columns (Columns); Bounds, Filled and Table hold what is
-- shown.
-- Mibs/Qos: src/sonic_ax_impl/mibs/vendor/cisco/ciscoSwitchQosMIB.py, its
-- lists of queues; Mibs/Qos/Stats: its statistics; Mibs/Qos/Filled and
-- Mibs/Qos/Table hold what is shown.
-- Mibs/Bgp: bgp4.py beside it.
-- Runs: the theorems at concrete inputs.
--
-- State and exceptions: an operation that may raise returns a Result, whose errors are the classes
-- of exception that the code tells apart. A method of AgentX that changes the object returns the new
-- state beside its result. The handlers of the MIBs are functions inside the entries; what they
-- promise is the record Mib/Successor.IsLawful, a hypothesis of the theorem on get_next. They do not
-- change between the steps of one request.
--
-- Fuel: the recursion of _get_counter in rfc2863.py takes the depth of the calls, and 2 is enough
-- where no port of a LAG is a LAG. The loops over a payload and over a stream take a number of rounds. Each round of the loop
-- over items takes at least one byte, since the size of an item is positive, and each PDU of a
-- stream takes its header, so the number of bytes is enough rounds.
--
-- Databases: a connector is a record of the keys that match a pattern and of the fields under a key,
-- which do not change during an update; what it raises itself is left out. An updater that raises
-- keeps what it has assigned so far. The contract of its entry is shown after an update that returns.
--
-- Not modelled: the asyncio loop, sockets and logging; the MIBs of the other files of
-- src/sonic_ax_impl/mibs; the command line; non-ASCII digits in strings; negative
-- numbers in texts, which int is taken to refuse; a range of interfaces that is None alone, which is
-- taken to raise TypeError; the moment at which a handler's value of a wrong type fails, in the making
-- of the binding or in its packing, before anything is written in both cases; RedisOidTreeUpdater
-- before its first update, where its map does not exist; the connection set-up of the
-- databases, which has no effect on their contents; bytes in place of strings from the databases.
pub mod Prelude
pub mod Constants
pub mod Dict
pub mod Strings
pub mod Mibs
pub mod Struct
pub mod Util
pub mod Order
pub mod Encodings
pub mod Mib
pub mod Pdu
pub mod Protocol
pub mod Entity
pub mod Socket
mod Runs
