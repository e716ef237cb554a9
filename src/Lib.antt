-- ===== src/Lib.antt =====
-- A model of the client library of XMMS2Remote, the C code under xmmsclient/ that talks to an
-- xmms2 server, and proofs about it.
--
-- The program: values (xmmsclient/xmmstypes/value.c, coll.c) are what a client and the server
-- exchange; messages (xmmsclient/xmmsipc/msg.c) carry them in a wire format, behind a header of
-- four words; a message is written to and read from a transport (a socket), and matched to its
-- result by the client's ipc layer.
--
-- Files and the code that they model:
--
-- - Prelude and its children: shared names, Boolean tests on numbers, lists measured by native
--   numbers.
-- - Value: the constructors of xmmsv_t and xmmsv_coll_t, and the constructor functions that can
--   return null (xmmsv_new_string, xmmsv_coll_new, xmmsv_coll_set_idlist,
--   xmmsv_coll_add_operand). Value/Utf8 is xmmsv_utf8_validate, Value/Text is C strings and
--   strcmp.
-- - Dict: the dict of value.c, a sorted array with bisection (find is xmmsv_dict_iter_find,
--   get, try_set and remove are xmmsv_dict_get, _set and _remove). What the calls of a change
--   are granted is its argument (Grants), and an array that refused memory leaves with half a
--   pair is a case of the outcome (Change). dict_set is try_set where nothing is refused; the
--   reader of messages and the attributes of collections use it. Dict/Order, Dict/Sorted,
--   Dict/Search, Dict/Map, Dict/Changes and Dict/Append hold what is proved of it.
-- - Msg: the buffer and its header (xmms_ipc_msg_alloc, _new, the header accessors), the
--   allocator as a parameter, the outcome of a call (a value, the failure code, a memory
--   fault). Msg/Put is the writing side (xmms_ipc_msg_put_data up to xmms_ipc_msg_put_value),
--   Msg/Get the reading side (xmms_ipc_msg_get_data up to xmms_ipc_msg_get_value with
--   xmmsc_deserialize_list and _dict).
-- - Msg/Encode is the wire format as a function to bytes, the specification of both sides.
--   Msg/Layout, Append, Writes and WriteValue prove the writing side, Msg/Reads, ReadParts,
--   ReadColl and RoundTrip the reading side, Msg/Ends its termination, Msg/Fresh and Sent the
--   two together, Msg/Faults two messages that crash the reader.
-- - Msg/Transport: xmms_ipc_msg_write_transport and xmms_ipc_msg_read_transport, over a
--   connected socket that is a parameter (Channel): it delivers and takes pieces of any size,
--   or breaks.
-- - ValueList: the list of value.c, an array that is grown and shrunk by realloc (a parameter,
--   Heap), with the positions of the iterators registered with it (xmmsv_list_insert, _remove,
--   _append). ValueList/Access is xmmsv_list_get, _set, _clear and _restrict_type,
--   ValueList/Move is xmmsv_list_move. ValueList/Iter is the movement of an iterator and
--   xmmsv_list_foreach with a callback that leaves the list alone. ValueList/Cells, Shift, Inv,
--   Places, Resize, Insert, Remove and Follow hold what is proved of it. A list inside a value
--   is taken by its contents only.
-- - Collection: the types of collections, xmmsv_coll_attribute_set and xmmsv_coll_universe of
--   coll.c. Collection/IdList is the array of ids with its final zero (the xmmsv_coll_idlist_*
--   functions and xmmsv_coll_set_idlist), Collection/IdList/Loops its loops, and Holding,
--   Insert, Remove and Move what is proved of it; in a Coll the ids are taken by their contents
--   only. Collection/Operands is xmmsv_coll_add_operand and xmmsv_coll_remove_operand over the
--   list of ValueList, with the comparison of pointers as a parameter, and
--   Collection/Operands/Removal what is proved of them.
-- - CollParser: the tokens of a search pattern and the tokenizer
--   (xmmsclient/xmmsclient/collparser.c, xmmsv_coll_default_parse_tokens and the loop of
--   xmmsv_coll_parse_custom). CollParser/Number is string_intadd, with strtol and snprintf of
--   the C library; CollParser/Prepare is coll_parse_prepare; CollParser/Filters holds the
--   coll_parse_* functions that are not recursive, and CollParser/Build those that are, with
--   xmmsv_coll_default_parse_build and xmmsv_coll_parse.
-- - CollParser/Grammar is the grammar of patterns as data, with the tokens of a query and the
--   collection that it means; CollParser/Leaves, Rounds, RoundTrip and Stable prove that the
--   parser follows it. CollParser/Progress, Uses and Terminates prove that it ends,
--   CollParser/Quote is about quoted texts, CollParser/Number/Digits and Sums about
--   string_intadd.
-- - Dict/Propdict is xmmsv_propdict_to_dict with its matching of source names,
--   Dict/Propdict/Prefer and Flatten what is proved of it. Dict/Format is xmmsv_dict_format,
--   over the text in its buffer, and Dict/Format/Template what a format stands for.
--   Value/Search is strchr, strrchr and strstr of the C library, with their answers as offsets.
-- - Url: the encoding of URLs with their arguments and its check
--   (xmmsclient/xmmsclient/medialib.c, _xmmsc_medialib_encode_url, _encode_url_old and
--   _verify_url), and xmmsv_decode_url of value.c with strtoul on two bytes. Url/Bounds is
--   about the room in the buffer, Url/RoundTrip about decoding what was encoded. The buffer of
--   the decoder is not modelled. Url/Parse is parse_url (xmmsclient/xmmsipc/url.c) with its
--   four functions that split, and Url/Parse/RoundTrip the URLs that are put together from
--   parts.
-- - Strlist: the arrays of strings of xmmsclient/xmmsutils/strlist.c (xmms_valist_to_strlist,
--   _len, _copy, _prepend_copy), with Strlist/Contents about what they hold.
-- - Client: requests with their cookies (xmmsclient/xmmsclient/xmmsclient.c, xmmsc_send_msg),
--   the results that wait for replies and their notifiers (xmmsclient/xmmsclient/result.c,
--   xmmsc_result_new, _notifier_set_full, _run, _unref) and the way of a message to its result
--   (xmmsclient/xmmsclient/ipc.c, xmmsc_ipc_exec_msg). A notifier is a function that says
--   whether it stays; one that calls the library again is not modelled, and what a request says
--   is kept as its object, command and arguments. Client/Store and Replace are about the list
--   of results, Client/Dispatch and Exec about what a reply does, and Client/Steps about all
--   sequences of calls.
-- - Client/Io: the connection as a queue of messages (xmmsclient/xmmsclient/ipc.c,
--   xmmsc_ipc_init, _msg_write, _io_out, _io_out_callback, _disconnect). Client/Io/Stream is
--   about one run of the loop that sends, Client/Io/Traffic about one write and one callback,
--   Client/Io/Order about all of them. Client/Io/Input is xmmsc_ipc_io_in_callback, which hands
--   the messages that arrive to Client (exec_msg), and Client/Io/Input/Order is about the order
--   in which it does. The queue is taken by its contents; what a notifier asks for while
--   messages arrive is recorded among the requests of Client and not put into the queue.
-- - Client/Commands: what each command of xmmsclient/xmmsclient/ sends (xmmsc_send_cmd of
--   xmmsclient.c and xmmsv_build_list of xmmsclient/xmmstypes/value.c), with
--   Client/Commands/Playlist (playlist.c), Playback (playback.c), Colls (collection.c),
--   Settings (config.c, bindata.c, stats.c, xmmsclient.c) and Medialib (medialib.c, xform.c).
--   The client is connected, and that a signal is sent for again is modelled in Client.
--   Client/Commands/Urls is about the commands that take a URL.
--
-- How the code is rendered: a uint32_t is a number below 2 ^ 32 with its wrap-around written
-- out; an int32 value is its bit pattern; a C string is the list of its bytes before the NUL; a
-- struct is a record and a function that updates it returns the new one. An access outside an
-- allocation, or through a null pointer, is the outcome fault, so a theorem that gives a result
-- also says that no such access was made. In parse_url, xmmsv_dict_format and the attributes of
-- collections memory is never refused, nor for a dict that the reader of messages fills, for
-- the iterator of xmmsv_dict_get, and for the two iterators and the new dict of
-- xmmsv_propdict_to_dict; what the settings of that function are granted is a parameter. In the
-- parser memory is never refused, a token that has no string has the empty one, and what a
-- function returns with a null collection is dropped, as every caller drops it; a long and a
-- size_t have 32 bits. The variable of xmmsv_dict_format that may be read before it is set
-- holds a parameter. The contents of fresh memory, and whether a request is granted, are
-- parameters (Memory). Lists and dicts own their contents: reference counts, and two values
-- sharing a part, are not modelled. The flat array of a dict is taken as the list of its pairs.
--
-- Fuel: get_value and get_collection take fuel, because the rest of a message is no structural
-- part of it. Any number above the count of unread bytes is enough, as Msg.Ends.get_value_ends
-- states; the round trips hold from the number of unread bytes on. The search of a dict has
-- fuel for the length of the array and one more, which is enough as Dict.Search.find-Found
-- states. read_transport has fuel above the number of bytes that a 32-bit count can still take,
-- as every round of its loop takes one byte at least. The loop of the in callback has fuel
-- above the number of bytes that the socket delivers in all, as every message has sixteen bytes
-- at least. xmmsv_dict_format has fuel above the length of the format. foreach and the search
-- for an operand have fuel above the number of values. xmmsv_coll_parse has fuel above three
-- units for each byte and two, as every parser that succeeds takes a token and at most three
-- calls are made before one is taken; to build a query of the grammar six units for each token
-- and six more are given.
--
-- Not modelled: printing of diagnostics, freeing of memory, token parsers and builders other
-- than the default ones, the linked list of xmmstypes/xlist.c (a copy of GLib), sockets and the
-- main loop (operating system), and the Objective-C user interface under Classes/.

pub mod Prelude
pub mod Value
pub mod Dict
pub mod Msg
pub mod ValueList
pub mod Collection
pub mod CollParser
pub mod Url
pub mod Client
pub mod Strlist
