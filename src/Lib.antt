-- ===== src/Lib.antt =====
-- A verification library for powaur, a package manager for the AUR written in C.
--
-- Dependencies of packages make up a graph (graph.c), whose vertices are found by name through an
-- index (the VINDEX tables of hash.c); a topological sort gives the order of installation, or says
-- that there is a cycle. The databases of packages are the other tables of hash.c, with sdbm and
-- strcmp of util.c as hash and comparison.
--
-- Base and the files in Base/ hold the shared names: lists with native indices, Boolean tests, and
-- the type Run of how code ends: with a result, in an endless loop, in die, or in a read or write
-- outside an array.
--
-- Alloc models new_alloc_size (hash.c) on 32 bits, with uint_cmp and the table of primes.
--
-- Hash models hash.c. Hash/Keys is the interface of a table to its hash function and comparison,
-- which Util/Compare fills for strings. Hash/Table has the probe loop, the insertion and the
-- growth, which the source writes out four times; the functions of the source stand in Hash/Htable
-- (normal table), Hash/Vindex, Hash/Bst (search trees under a key) and Hash/Hmap. A slot with a
-- NULL key is `none`; data pointers are values of the key type, and -1 and NULL are `none`. The
-- probe loop has as many rounds as there are slots: a loop that has gone round once repeats
-- itself. A table with a free slot stops before.
--
-- Graph models graph.c: Graph/Stack the stack, Graph/Defs the vertices and the edges, Graph/Sort
-- the depth-first search and graph_toposort, with the pointers to vertices as places. A search
-- gets one round for each vertex and each edge, and one to see the empty stack; each round counts
-- an edge or blackens a vertex, so this is enough. Graph/Build, Graph/Edges and Graph/Reach follow
-- a graph from graph_new on.
--
-- Util models sdbm, strtrim and strtrim_ver (util.c), over strings as lists of bytes, and has the
-- C library's comparisons of strings.
--
-- Hashdb models the keys of the tables of packages and provides_search (hashdb.c), Hashdb/Build
-- build_hashdb with hash_packages over the caches of libalpm: there a table is the list of its
-- members or the tree of each key, the views that Hash/Htable and Hash/Bst give of the tables.
--
-- Args models parseargs and the parsearg functions (powaur.c), Conf parse_powaur_config (conf.c),
-- Json the callbacks of the yajl parser (json.c), and Memlist the pools of elements (memlist.c).
-- What getopt_long, fgets and yajl hand to the code is a list of options, of lines and of events;
-- alpm_list_find_str is a parameter.
--
-- Conf/Pacman models parse_pmconfig with its helpers (conf.c) and setup_pacman_environment
-- (environment.c); the static flags of a setting stand beside its value. The loop that cuts the
-- cache directories gets one round for each byte of the line. Conf/Setup models setup_powaur_config
-- (environment.c), with the files that the two variables of the environment lead to.
--
-- Download models download.c: one download with extract_file (util.c), over what the system,
-- libcurl and libarchive answer and which files an extraction writes, and the threads of
-- threadpool_dl_extract as a step relation. Each thread has a mutex of its own, so the reading of
-- the queue's head, the reading of its next link and the writing of the queue are steps between
-- which the other threads run.
--
-- Package models package.c: substitute_vars over the bytes of its buffer, with the table of
-- variables as a search function; parse_bash_array (Package/Arrays), parse_pkgbuild and
-- grab_dependencies (Package/Pkgbuild) over the lines of a file; resolve_dependencies and which_db
-- in Package/Resolve. The substitution runs for a number of rounds; grab_dependencies gives it the
-- square of the buffer's size, since between two steps ahead the text can only get shorter.
-- parse_pkgbuild has a round for each line. For a token that is one quote, and for two blanks
-- behind a first quote, the code reads a byte outside of the token; the model takes it for no
-- quote and no ')'.
--
-- Get models the loop of powaur_get (download.c) over the targets and their dependencies, with
-- what the threads make of the directory as a parameter; it goes round twice more than there are
-- files to be had, at most.
--
-- Query models chompversion, normalize_package, should_we_continue_resolving and
-- add_immediate_deps (query.c); the tables are their search functions, and the two maps are lists
-- in which the first value of a key counts, as Hash/Hmap shows of the map. Query/Crawl models
-- crawl_resolve and build_dep_graph. The code takes the address of a local array for a name there;
-- the model stops where that address is stored, which is where normalize_package gives it back or
-- makes it a key, or where a NULL is used as a name. The loop has a number of rounds: a round
-- takes a name off the stack, and one that adds names resolves one more of finitely many, so a
-- finite number is enough. The calls of graph_add_edge are collected and made at the end, since
-- the loop does not read the graph. Query/Print models print_topo_order, with a round for each
-- element of the stack, and powaur_crawl.
--
-- Sync models topo_get_targets (sync.c), over the stack that graph_toposort leaves, with a round
-- for each element; Sync/Install install_single_package and topo_install, over the answers of the
-- user, the directories, what waitpid says of the commands and, with noconfirm, whether free comes
-- back from a pointer that is not set; Sync/Plan sync_targets, sync_upgrade with get_outdated_pkgs
-- and the dispatch of powaur_sync, over query_aur and libalpm's comparison of versions;
-- Sync/Upgrade puts these together as upgrade_pkgs. Util/Wait models wait_or_whine, and Util/Ask
-- the questions to the user and have_dotinstall (util.c).
--
-- Tests runs the code on small inputs and applies the theorems to them.
--
-- Not modelled: memory and its release (the free functions), failing allocation, the doubling of a
-- stack's capacity beyond an int, the failing creation of a thread, debugging output, the child of
-- a failing exec, the messages of error.c, and the functions that print packages or only call
-- libalpm, libcurl, yajl, libarchive and the file system.
pub mod Alloc
pub mod Args
pub mod Base
pub mod Conf
pub mod Download
pub mod Get
pub mod Graph
pub mod Hash
pub mod Hashdb
pub mod Json
pub mod Memlist
pub mod Package
pub mod Query
pub mod Sync
pub mod Tests
pub mod Util
