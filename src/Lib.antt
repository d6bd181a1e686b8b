-- ===== src/Lib.antt =====
-- cgr-jni: the C code of ion_cgr_jni, which computes contact graph routes.
--
-- The program. A Java simulator calls over JNI into a cut-down copy of ION. The contact plan (a
-- red-black tree of contacts and one of ranges, in shared memory) is kept by ici/library/rfx.c.
-- `cgr_forward` of bp/cgr/libcgr.c looks routes up for a bundle: a Dijkstra search over contacts,
-- repeated with contacts suppressed, loads a list of routes for each terminus; the routes that are
-- live and wide enough give the candidate neighbors, of which the best gets the bundle. Volumes of
-- data are accumulated in the `Scalar` of ici/library/platform.c.
--
-- The files, and the code each is about (paths from the root of the repository):
--   Base, Base/*           lists, tests, integers and the rounding of a C double, which the other files
--                          share
--   Scalar, Scalar/*       ion_cgr_jni/ici/library/platform.c: loadScalar to scalarIsValid
--   Plan, Plan/*           contacts and ranges of ion_cgr_jni/ici/include/ion.h and the order of their
--                          trees in ion_cgr_jni/ici/library/rfx.c (rfx_order_contacts, rfx_order_ranges)
--   Plan/Between           the wild-card search for a node's contacts or ranges in those trees
--   Rbt, Rbt/*             ion_cgr_jni/ici/library/smrbt.c as its users see it: sm_rbt_first,
--                          sm_rbt_last, sm_rbt_search, sm_rbt_insert and sm_rbt_delete on the list of
--                          the data in order
--   Rbt/Tree, .../*        the same file on its nodes: traverseRbt, sm_rbt_search, rotateOnce,
--                          rotateTwice, the changes on the way down of Sm_rbt_insert,
--                          destroyRbtNodes, and subtreeBlackHeight of debug builds
--   Rfx, Rfx/*             ion_cgr_jni/ici/library/rfx.c: rfx_insert_contact, rfx_remove_contact,
--                          rfx_insert_range, rfx_remove_range and what they call on the nodes, the
--                          indexes, the timeline of events and the lists of the data base; addEmbargo,
--                          removeEmbargo and postProbeEvent
--   Cgr/Ranges             ion_cgr_jni/bp/cgr/libcgr.c: getApplicableRange
--   Cgr/Note               CgrContactNote, _minCapacity and the arithmetic of a hop
--   Cgr/Dijkstra, .../*    computeDistanceToTerminus and findNextBestRoute
--   Cgr/Routes, .../*      loadRouteList and endAnchoredSearch
--   Cgr/Recompute, .../*   recomputeRouteForContact
--   Cgr/Proximate, .../*   isExcluded, excludeNode, the list of candidate neighbors of tryRoute, the
--                          excluded nodes and the choice of a neighbor in cgrForward, and the
--                          embargo probe of enqueueToNeighbor
--   Cgr/Arrival, .../*     computeArrivalTime, with guessBundleSize, computeECCC and
--                          computePriorClaims of ion_cgr_jni/bp/library/libbpP.c
--   Cgr/Identify, .../*    tryRoute and identifyProximateNodes
--
-- Representation. Pointers to contacts are the contacts themselves, told apart by their address
-- `addr`, which rfx.c takes from a counter; the notes that contacts point to are a function from
-- addresses. A red-black tree is the list of its data in order, a position in it the rest of the
-- list. Rbt/Tree has its nodes: the parent pointers of a node are the path to it. Times and numbers
-- of nodes are natural numbers; products and differences that C takes in unsigned words keep their
-- wrap-around, and sums of a time and a light time are not wrapped: they stay below 2 ^ 63 for the
-- 32-bit times of this code. The times of events in rfx.c and the arrival times of candidate
-- neighbors are signed integers, and the probability of a contact is the 32 bits of its float. The
-- C `int`s of a Scalar, and the seconds that computeArrivalTime computes from them, are integers
-- without bounds: C leaves their overflow undefined. The `double`s of multiplyScalar and
-- divideScalar have 53 bits and are rounded to the nearest, halfway to even (Base/Double). The
-- unsigned rates and the remaining seconds that computeArrivalTime hands to `int` parameters wrap
-- around to negative numbers, as compilers for two's complement define it.
--
-- Loops. A loop over a list is a recursion on it. The loop of a search gets one round for the root
-- and one for each contact, and the loop that follows predecessors two more than there are
-- contacts; the theorems on the search show that this is enough. The loops of a Scalar get as many
-- rounds as the number that they count down, which their theorems show to be enough too. The
-- scaling of a quotient to 53 bits, which is no loop of the code, gets 84 rounds up and 64 down,
-- enough for the quotients of Scalars and `int`s. The loop over routes of loadRouteList gets (2 n +
-- 1) (n + 1) rounds for n contacts in each payload class, and the walk of identifyProximateNodes (n
-- + 1) (n + 1) rounds for n routes; the theorems on them show that this is enough. The loop of
-- rfx_remove_contact gets one round more than the index has contacts, that of rfx_remove_range more
-- rounds than there are ranges, and that of destroyRbtNodes more than twice the number of nodes;
-- the theorem on rfx_remove_range says where it ends, and another one where none is enough.
--
-- Parameters. The callback that looks a directive up for a neighbor and the outducts in the data
-- base are functions that the definitions of Cgr/Identify take.
--
-- Not modelled. Shared memory and its failures to allocate, tracing, the descent of insertion into
-- the nodes of a red-black tree and deletion from them, rfx_start and rfx_stop, the printing of the
-- plan, the discarding of route lists, the queues of bundles to outducts and their overbooking, the
-- JNI bridge and the Java sources.
pub mod Base
pub mod Scalar
pub mod Rbt
pub mod Plan
pub mod Rfx
pub mod Cgr
