-- ===== src/Lib.antt =====
-- The tables, the retransmission logic and the frame codecs of the Zigbee stack ArduinoNRF-Zigbee.
--
-- The stack runs on a microcontroller beside a CC2530 radio. A frame that arrives passes the MAC and
-- NWK parsers, then the tables that decide what to do with it (is this broadcast new, is this APS
-- frame a duplicate, which relays lead to a device, what waits for a sleepy child, which groups and
-- bindings concern this node), and a frame that leaves passes the builders and, where an ack is
-- asked for, the retransmission table. The sketch or the network class drives them from its loop,
-- with the clock `millis()` as an argument.
--
-- The files, and the sources that they are about:
--   Prelude            shared names; lists measured by native numbers; the wrap-around of machine words
--   Slots              the fixed arrays of entries of the table classes, their loops and their laws
--   BroadcastTable     src/ZigbeeBroadcastTable.h: recordIncoming, recordOutgoing, markPassiveAck, due,
--                      markRebroadcast, expire
--   SourceRouteTable   src/ZigbeeSourceRouteTable.h: install, downstreamRoute, remove, expire
--   IndirectQueue      src/ZigbeeIndirectQueue.h: enqueue, hasPending, dequeue, expire
--   ApsDuplicateTable  src/ZigbeeApsDuplicateTable.h: checkAndRecord
--   ApsRetransmit      src/ZigbeeApsRetransmit.h: add, onAck, due, markAttempted
--   GroupTable         src/ZigbeeGroupTable.h: add, remove, isMember
--   BindingTable       src/ZigbeeBindingTable.h: add, remove, find, next
--   NeighborTable      src/ZigbeeTables.h, src/ZigbeeTables.cpp: the neighbors (Unique, Runs), their aging
--                      (Aging) and the choice of a parent (Parent)
--   RouteTable         the same files: the routes, and the partial map that they implement (Refine)
--   Routing            src/ZigbeeRouting.h, src/ZigbeeRouting.cpp: route requests (Discovery, Copies) and
--                      their way back (Relay, Runs), on an attached route table (Table)
--   PanIdConflict      src/ZigbeePanIdConflict.h: ZigbeePanIdConflict, the frames and their tests
--   NetworkManager     the same file: ZigbeeNetworkManager, the choice of a PAN id (Select), what it hears
--                      (Heard), and changes that it announces (Announce)
--   Zcl                src/ZigbeeZcl.h, src/ZigbeeZcl.cpp: frames, and the payloads of the general commands
--                      (Attributes)
--   GroupsCluster      src/ZigbeeGroupsCluster.h: the server of the Groups cluster, on the GroupTable
--   Reporting          src/ZigbeeReporting.h, src/ZigbeeReporting.cpp: when to report (Rate) and what
--                      (Command)
--   Mac                src/ZigbeeMac.h, src/ZigbeeMac.cpp: data frames, commands (Command), inter-PAN frames
--                      (InterPan) and beacons (Beacon)
--   Bytes              the little-endian reads and writes that the codecs share
--   Aps                src/ZigbeeAps.h, src/ZigbeeAps.cpp: data, group and ack frames
--   ApsFragment        src/ZigbeeApsFragment.h: fragment frames (Frame), the sender (Send), the receiver
--                      (Blocks, Receive, Reassembly) and the two together (Transfer)
--   Nwk                src/ZigbeeNwk.h, src/ZigbeeNwk.cpp: data frames (DataFrame), relaying
--                      (SourceRoute), command frames (CommandFrame) and command payloads
--                      (RouteCommands, DeviceCommands, Beacon)
--
-- Correspondence. A class is a record of its fields; a method is a function from the state before to
-- the state after, beside what the method returns. A pointer to an entry of a table is its index; a
-- null pointer is `none`. `begin` is given the number of entries of the caller's array. Bytes and
-- words are natural numbers; where the source narrows or wraps, the model takes the remainder
-- (`u8`, `add32`, `sub32`), and the signed comparison of two times is `before32`. A builder returns
-- its length beside the bytes that it writes to `out`; a parser takes the bytes from its pointer on.
-- A read past the end of these bytes, which is undefined in the source, reads 0 in the model: the
-- theorems on parsers are about bytes that are there.
--
-- The arguments that describe a neighbor to upsert are the record `Report`. The route table that
-- ZigbeeRouting is attached to by a pointer is part of its state: nothing else writes to it there.
--
-- Loops over a table or a list are structural recursion. The walk of a frame over its relays
-- (`travel`), the iteration of a sender over the bindings (`visit`) and the loop that asks a fragmenter
-- for frames until it is done (`send`) run on fuel: one step more than there are relays or slots, or
-- as many as there are blocks, is enough, since each step uses one up. The scan for a PAN id runs on the
-- 0xFFFE rounds of its loop, of which a free one among 20 candidates is found before.
--
-- Not modelled: the radio drivers and the firmware, AES, CCM*, Curve25519 and SPEKE, the ZDO codec,
-- the ZCL clusters but Groups, commissioning, and persistence. A broadcast,
-- duplicate, source route, indirect, neighbor or route table whose array has no entry is outside `IsValid`.
pub mod Prelude
pub mod Bytes
pub mod NetworkManager
pub mod PanIdConflict
pub mod Zcl
pub mod Reporting
pub mod Mac
pub mod GroupsCluster
pub mod Slots
pub mod BroadcastTable
pub mod SourceRouteTable
pub mod RouteTable
pub mod NeighborTable
pub mod IndirectQueue
pub mod ApsDuplicateTable
pub mod ApsRetransmit
pub mod GroupTable
pub mod Aps
pub mod ApsFragment
pub mod Nwk
pub mod Routing
pub mod BindingTable
