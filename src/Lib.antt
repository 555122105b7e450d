-- ===== src/Lib.antt =====
-- Merlin: the events of a Nagios node on their way to its peers, pollers and masters.
--
-- Four parts of shared/ are modelled, the parts of module/ that use them, and the sorted lists of the
-- tools. The hooks of the module decide which events of Naemon leave the node, and to which nodes
-- they go. The codec packs an event into one block of memory and unpacks it. The backlog keeps the
-- blocks that cannot be sent yet: node.c adds to it when a node is not connected, and reads it, and
-- puts back what could not be sent, when the node is there again. The other side cuts the bytes that
-- arrive into packets. Peer groups decide which node runs a check, by the nodes that are connected.
-- Two nodes that connect first choose one of their connections, and compare what they say of
-- themselves.
--
-- Where one part stands on another there is an interface of operations and laws: Node.Backlog for
-- the backlog behind a node, which Node.Stored fills with Binlog, and BufferQueue with QueueLaws in
-- Node.Receive for Naemon's buffer queue, which Node.ReceiveTests fills with a list.
--
-- Base: names, lists over native numbers, tests. Base.Windows is about the part of a list
-- between two indices.
--
-- Binlog: shared/binlog.c and binlog.h. The record Binlog is `struct binlog`, with the file that
-- `path` names as a list of bytes, and a file descriptor as its offset and its O_APPEND flag.
-- The record Os says what each system call answers during one operation. Binlog.File holds
-- binlog_open, safe_write, binlog_file_add, binlog_file_read, binlog_file_unread, binlog_close
-- and binlog_invalidate; Binlog.Memory binlog_grow, binlog_mem_add, binlog_mem_read and
-- binlog_mem_unread; Binlog.Log binlog_create, binlog_add, binlog_read, binlog_unread and the
-- counters; Binlog.Flush binlog_flush, binlog_wipe and binlog_destroy.
-- `unsigned int` counters keep their wrap-around. Binlog.Inv is the invariant: the cache holds some
-- events, the unread part of the file the frames of others. Binlog.FileLaws and Binlog.MemoryLaws
-- treat one store each; Binlog.Fifo, Binlog.FifoRead and Binlog.Run the queue that the two make,
-- Binlog.Undo and Binlog.Misplaced unread, Binlog.FlushLaws and Binlog.Stale flush and wipe, Binlog.Counts the counters. The bounds of
-- 2^31 on an event and 2^30 on the slots in use keep the counters from wrapping around; they are
-- hypotheses where they matter. Binlog.Save is binlog_save and binlog_get_saved, with the bytes of the
-- metadata file as the backlog that was written, and Binlog.SaveLaws is about the two together.
--
-- Codec: shared/codec.c. Codec is the table hook_info; the sizes of Nagios's structures and
-- NEBCALLBACK_NUMITEMS are parameters. A structure is the list of its string fields: its other
-- bytes are copied as they are. Codec.Encode is merlin_encode, Codec.Decode is merlin_decode,
-- over offsets and addresses of 64 bits; what is an `int` in merlin_encode is one of 32 bits, and a
-- string's length that is negative ends the run. Codec.Accept, Codec.RoundTrip and Codec.Reject are
-- about what the two do together and what the second does with foreign offsets.
--
-- Pgroup: shared/pgroup.c and pgroup.h. Pgroup.Tables is pgroup_alloc_counters and
-- pg_create_id_convtables, with its runs for the host groups of a group, for hosts and for services
-- by the same definition; a bitmap is a
-- function to Bool. Pgroup.Order is cmp_peer, pgroup_assign_peer_ids and pgroup_node, where
-- qsort is a parameter. Pgroup.Groups is pgroup_create, pgroup_get_by_cshgs, pgroup_add_node,
-- pgroup_validate and the loops of pgroup_init that use them; Pgroup.Reassign is
-- pgroup_reassign_checks, with `int32_t` counts as their unsigned representation. Each of the three
-- has a record with the fields that it reads of a node and of a group. Pgroup.Shares and
-- Pgroup.Balance are about the counters, Pgroup.Active about the order of the nodes,
-- Pgroup.Members about the groups, Pgroup.Takeover about the checks that each node ends with.
-- Pgroup.Mapping is pgroup_hgroup_mapper and the loop of pgroup_map_objects over the hosts of no
-- poller, Pgroup.Handled is about its counts; Pgroup.Csstr is get_sorted_csstr. The rest of
-- pgroup_map_objects looks up host groups and prints, and is not modelled; nor is the freeing.
--
-- Node: shared/node.c and node.h. Node.Packet is the header of a packet, as bytes, and packet_size.
-- Node.Send is node_send, node_binlog_add, node_send_binlog and node_send_event, over the record
-- Link, the fields of a node that they change; `wire` is what the socket has taken. The record Net
-- says what the k-th call of io_write_ok or io_send_all answers. The backlog is the interface of
-- Node.Backlog, operations and laws, and Node.Stored fills it with the operations of Binlog. Node.Turn
-- and Node.Deliver are about the loop of node_send_binlog, which runs on fuel: one more than the
-- events of the backlog are enough, since each turn takes one. Node.Event and Node.Order are about
-- node_send_event, Node.Resend about an event that is sent when the backlog cannot be. Packets are
-- not encrypted, which is libsodium's work; the logging and the counts per callback are left out.
-- Node.State is node_set_state and node_disconnect, with the counters of connected nodes and the
-- calls of the node's callback; Node.Transitions is about one call, Node.Counted and Node.Steps
-- about any sequence of calls, as a step relation. Node.Tree is create_node_tree and node_by_id,
-- Node.TreeLaws, Node.TreePlaced and Node.TreeIds are about the ids. Node.Compat is
-- node_compat_cmp and node_mconf_cmp, Node.Config node_oconf_cmp and handle_ctrl_active,
-- without their messages, and Node.Select the selections, with names as lists of bytes and fuel for
-- the names in a list. Node.Receive is node_recv, node_get_event and net_input, with handle_event as
-- the parameter `handle`; fuel of more than the packets that have arrived, or of more than their bytes,
-- is enough for the loop of net_input. Node.Framing is about packets one behind the other, Node.Taking
-- about node_get_event, Node.Arrive about one call of net_input and Node.Arrivals about any sequence of
-- them, Node.Hostile about bytes that are no packets, Node.EndToEnd about node_send_event on one
-- side and net_input on the other. Node.Saved is node_binlog_read_saved, where fuel of one more than the
-- events is enough, and Node.Restart is about a backlog that is saved and read again. node_ctrl
-- and the parsing of nodes are not modelled.
--
-- Module: module/hooks.c and module/net.c. Module.Routing is is_dupe, send_generic, net_sendto,
-- ipc_send_event and daemon_wants: the tables of nodes are lists, merlin_encode_event is the
-- parameter `encode`, and node_send_event is said by the list of the nodes it was called for.
-- Module.Fields, Module.Recipients and Module.Destinations are about the packet and the nodes it is
-- sent to, Module.Dupes about is_dupe. Module.Notify is the first part of hook_notification, with
-- should_run_check, pgroup_num_notify and hook_event_handler, Module.OneNotifies is about the peers
-- together and Module.NoneNotifies about pollers and their masters together.
-- Module.Hooks is merlin_mod_hook with the hooks behind it; Module.Echo and
-- Module.ResultFirst are about runs of it. What the hooks read of Naemon's objects is given, and what
-- they write there is left out. Module.Net is net_negotiate_socket, conn_writable, net_is_connected,
-- node_accept, find_node, net_source_port and disconnect_inactive, where the answers of the
-- system's calls are given; Module.Accept, Module.AcceptStates, Module.Closing and Module.Lookup are
-- about them. Not modelled are handle_event and the handlers behind it, net_try_connect, net_init, the
-- search of a node by its UUID, and the expiry of checks.
--
-- Slist: tools/slist.c, with the comparison and qsort as parameters. The array is a list of
-- slots, and a run crashes where the code reads or writes outside of it. Slist.Bisect is the loop of
-- slist_find_pos, on fuel: more than there are items are enough. Slist.Find is slist_find,
-- Slist.Ends, Slist.Push and Slist.Grow are slist_push and slist_pop; Slist.Numbers is a sorting of
-- numbers to try them with.
--
-- The other loops are structural recursions over lists or counts, so that no fuel is needed, but
-- for the loop of binlog_flush, which runs over the indices that are left.
pub mod Base
pub mod Binlog
pub mod Codec
pub mod Module
pub mod Node
pub mod Pgroup
pub mod Slist
