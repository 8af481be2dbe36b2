-- ===== src/Lib.antt =====
-- lovely-rs: pages built of elements. The program keeps the elements of a page as rows in Postgres,
-- loads them into a tree, edits and renders the tree, and keeps an SQLite database for each app,
-- whose schema changes by recorded intents.
--
-- Base/ has strings as lists of scalar values with their UTF-8 bytes, tests on numbers, and lists.
--
-- Tree/ is crates/lovely-tree. Tags, Attrs and Errors are tags.rs, attrs.rs, errors.rs and
-- types.rs. Arena/Monad and Arena/Ops are arena.rs: the slot map is a function from keys to
-- optional nodes, `by_uuid` one from UUIDs to optional keys, and a method is a function from a tree
-- to a result with the tree it leaves, to an error with the tree it leaves, or to a panic (an index
-- of a missing node). The key of a new node is an argument, since the slot map chooses it.
-- `Arena/Links` states what the links of a tree have to satisfy, the invariants of
-- `check_invariants`; `Arena/Insert` the well-formed trees; `Arena/Refusals` what refuses an
-- insertion; `Arena/Children` the list of children that the links of a node stand for. Iter is
-- iter.rs, Render is render.rs, and Build is build.rs: Build/Siblings is `order_siblings`,
-- Build/Load is `from_db_rows`. Forest is the reading of the links as a forest of elements.
--
-- Db/ is crates/lovely-db: Identifier and Intent are intent.rs, Schema is schema_service.rs,
-- Elements is elements.rs, Revisions is revisions.rs, Collections is collections.rs, and Pages is
-- pages.rs with the queries of apps.rs and users.rs that the page handlers use. A table is the list
-- of its rows, and a transaction is one step on the tables that it reads and writes; a dropped one
-- changes nothing. The foreign keys of migrations/ are part of the steps: a deletion takes the rows
-- below a row with it and clears what else refers to it, and an insertion of a row that refers to a
-- missing one fails, as does one whose page, app or user is missing. The rows of one time come in
-- the order of the table, which Postgres does not promise. `Revisions/History` is the abstract view
-- of the revisions of a page, a current entry with its past and its future, and `Revisions/Moves`
-- says which tables show a history.
--
-- Web/ is crates/lovely-web: Csrf is auth/csrf.rs, Errors is errors.rs, and Pages is
-- handlers/pages.rs: the handlers that change a page and `Guards` on them, `Public` for what a viewer
-- sees, `Create` for new pages, `Slugs`, `Head` for the sanitizer of head HTML, `Templates` and `Bindings` for
-- the values of records in a page, `Repeaters` for the elements copied for each record, and `Forms`
-- for the forms that create records. Elements is a part of handlers/elements.rs, with undo and redo
-- of handlers/builder.rs. A request is its
-- user, the segments of its path, its cookies and its form; an answer is a response with the tables
-- that it leaves, an error, or a panic.
--
-- Loops run on fuel. The iterators need one unit for each node they yield and one more, the
-- renderer two for each element at most and two more, the ordering of siblings one for each row and
-- one more, and the sanitizer one for each byte and one more, which the last two are given; the
-- theorems state the bound. A deletion is given one round for each row and one more: a round that
-- goes on drops a row. 20 digits hold every 64-bit number. The test of a move is given more than
-- the ancestors of the new parent. No amount of fuel is stated for `remove` and the search of
-- `from_db_rows`; the search for the form above a row and the rounds that collect the rows below a
-- template are given one unit for each row and one more.
--
-- Not modelled: the changes of apps, users and sessions, the HTML of handlers/pages.rs, new
-- children, wrapping, copies and moves of elements, the other handlers, failures of a connection or
-- of a commit, the views and routes of crates/lovely-web, start-up, and the libraries (sqlx, serde,
-- slotmap, axum, argon2), of which the code's calls are parameters: the keys and random values they
-- hand out, the order in which a hash map gives its values, the text of an identifier, the hash of
-- a password, and what SQLite makes of a statement.
mod Base
pub mod Db
pub mod Tree
pub mod Web
