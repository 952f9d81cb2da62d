-- ===== src/Lib.antt =====
-- A verification library for oidc-agent, the agent that keeps OpenID Connect accounts and hands out
-- their tokens.
--
-- The daemon oidcd keeps the loaded accounts in a list of pointers. Three secrets of each, the refresh
-- token, the client id and the client secret, are encrypted in memory while no request uses them. A
-- request finds its account by name, decrypts it in place, works on it, and encrypts it again.
--
--   Prelude    shared names, Boolean tests, lemmas on lists, options and integers
--   Text       C strings, src/utils/string/stringUtils.c (Edit: parts and changes of strings; Remove:
--              strremove, strelimIfAfter, and removeScope of src/utils/oidc/oidcUtils.c; Case;
--              Flags), strtok and decimal numbers
--   ListUtils  src/utils/listUtils.c: set operations (Sets), merge sort (Sort) and delimited strings
--              (Delimited)
--   Crypt      src/utils/crypt: the encryption in memory, memoryCrypt.c (Memory); texts that are
--              encrypted with a password, crypt.c (Format) and hexCrypt.c (Hex); the files they
--              are kept in, cryptUtils.c (Lines) with the versions of src/utils/versionUtils.c
--              (Version); messages between client and agent, ipcCryptUtils.c (Ipc); and the
--              password of the agent, passwordCrypt.c (Password) with the numbers of
--              src/utils/string/numberString.c (Number)
--   Account    src/account/account.h, src/utils/matcher.c, and compIssuerUrls of
--              src/account/issuer_helper.c
--   Accounts   the list of loaded accounts: src/utils/db/db.c, src/utils/accountUtils.c,
--              src/utils/deathUtils.c, src/utils/crypt/dbCryptUtils.c, and the removal of dead
--              accounts in the main loop of src/oidc-agent/oidcd/oidcd.c (Death)
--   Agent      src/oidc-agent/oidcd/oidcd_handler.c: loading accounts (Load) and the requests for
--              tokens (Token, and Issuer for those that name an issuer), over
--              src/oidc-agent/oidc/flows/access_token_handler.c; adding accounts (Add), removing and
--              deleting them (Manage; Registry for the list as a map of names); first tokens by one
--              flow or another and authenticating again (Gen); the end of a flow that waited for the
--              user, with codeExchangeEntry.c and deviceCodeEntry.c (Exchange); the requests that
--              only answer (Inform); runs of token and removal requests (Requests)
--   Daemon     src/oidc-agent/oidcd/oidcd.c: the main loop, with the gate of the lock and the dispatch
--              of every request
--   Files      src/utils/db/file_db.c and the requests for files of oidcd_handler.c
--   Passwords  src/utils/password_entry.c (Entry), and password_store.c and password_handler.c of
--              src/oidc-agent/oidcp/passwords (Store): the passwords that oidcp keeps, with runs of
--              the operations (Store/Runs)
--   Port       src/utils/portUtils.c: the choice of a port
--   Uri        src/utils/uriUtils.c: decoding (Decode), parameters (Search, Query), the ports of
--              redirect uris, with those of portUtils.c (Ports), endpoints (Endpoint) and hosts (Host)
--   Lock       src/oidc-agent/lock_state.c and the lock encryption of dbCryptUtils.c, one account
--              (Round), the loop (Loop) and all of them (Restore), over the encryption of crypt.c
--              (Interface)
--
-- A C string is the list of its bytes, and `none` stands for NULL. Accounts are cells of a heap, since
-- the code changes a loaded account through its pointer. A handler is a function from the state of the
-- agent to the next one, with the messages that it writes as a list. What libsodium, the OpenID
-- provider, the user, a command, a file and the process oidcp answer are parameters: the records
-- Base64, Sodium, PasswordCrypt (which crypt.c fills), Sources and World. A `World` is fixed for one
-- request, so a time or an answer that a request asks for twice is the same.
--
-- Fuel: mergeSort takes the length of the list, remove_dead more than the number of accounts, and
-- removeDeathPasswords one round for each entry and one more; all are shown to be enough.
-- delimitedStringToList takes more than the length of the string, of which every turn of its loop
-- takes a character; that this is enough is shown for a list that was written with the delimiter.
-- extractParameterValueFromUri takes more than the characters of the query, of which every pair
-- takes one at least; that this is enough is shown for every query. The powers of numberToString
-- have 64 rounds, for the bits of an exponent, and its digits nine places. The draws for a port are
-- a list that can end too early. strToInt keeps the range of long and the low 32 bits, as glibc
-- does; times and lengths are natural numbers, and deaths of accounts integers, that do not wrap.
-- Names of the code are in snake case here: strToInt is str_to_int.
--
-- A handler whose code reads through NULL or leaves the bounds of a string has no result there: the
-- requests for first tokens and for authenticating again, the status, and decryption and uris, whose
-- `Answer` has `undefined` for it. A buffer whose size the code reads from a file is taken to be as
-- large as what is written into it. An account that the code frees is noted in `freed`; an entry
-- that waits for the user holds the pointer of its account. A configuration that oidcp sends to be
-- loaded is the text of an account.
--
-- Not modelled: sockets, pipes, files, prompts and HTTP; JSON, which rests on cJSON, so that readers
-- and writers of JSON are fields of World; durations, which are numbers in floating point; the
-- client programs; the process oidcp but for its passwords; the registry of databases in db.c, of
-- which four lists and the files are modelled each by itself.
pub mod Prelude
pub mod Text
pub mod Crypt
pub mod Account
pub mod Accounts
pub mod Agent
pub mod Files
pub mod Daemon
pub mod Passwords
pub mod Port
pub mod Uri
pub mod Lock
pub mod ListUtils
