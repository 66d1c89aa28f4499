-- ===== src/Lib.antt =====
-- IP Scout reads the access logs of web servers over SSH, keeps a record of every address that it sees,
-- and finds out which addresses are Iranian.
--
-- The parts and their files:
--   Prelude, Errors       numbers, lists, texts, and exceptions as values
--   Python                what the program uses of Python: str and bytes methods, int, UTF-8 decoding,
--                         and the module `ipaddress`
--   Models                the rows of apps/*/models.py, the messages of the task queues, and the state
--                         `Db`; Models.Tables reads and updates rows by primary key
--   Common                apps/common: Fields for fields.py, Locks for locks.py
--   Servers               apps/servers: Ssh for services.py (sessions, discovery, `poll_log`), Tasks for
--                         tasks.py, Form for forms.py, Views for the pages of all apps that change state
--   Users                 apps/users and apps/common/utils.py: the request context and the audit log
--   Logs                  apps/logs: Format, Pattern and Parser for parsers.py, Chunk and Reader for
--                         services.py, Tasks for tasks.py; Reader.Follow has a log that is polled
--                         while it grows
--   Ips                   apps/ips: Identity and Sightings for services.py, Tasks and Retention for
--                         tasks.py (Retention has the purges of apps/incidents and apps/whois too),
--                         Pages for the list, the page and the directories of views.py
--   Iran                  apps/iran: Match, Classify and Validation for services.py, Providers for
--                         providers.py, Tasks for tasks.py, Export for export.py and the downloads of
--                         views.py (Export.Spec says which addresses are exported)
--   Whois                 apps/whois: Parser for parsers.py, Inetnum and Lookup for tasks.py and
--                         services.py
--   Geo                   apps/geo
--   Query                 the queries of Django that the pages use: groups with counts, distinct,
--                         order_by; Query.Counted says what a selection and a count are
--   Dashboard             apps/dashboard: periods and search.py; Analytics for the series of analytics.py,
--                         Map for map.py, Workers for workers.py, Cards for views.py and
--                         settings_views.py
--   Incidents             apps/incidents/views.py
--   Api                   the querysets of apps/api/viewsets.py; Endpoints for apps/api/views.py
--   Config                config/env.py
--   In Iran, Servers, Users and Whois, a module Pages has the pages that only read (Servers.Pages those of
--   apps/logs/views.py too), up to pagination.
--   System                the changes that all of these make to the addresses, as one step relation
--   Tests                 concrete runs
--
-- How they interact: `poll` of Logs.Reader takes a chunk from `poll_log` of Servers.Ssh, parses its
-- lines, and hands the addresses to `record_sightings_bulk` of Ips.Sightings, which sends one message
-- for each new address. `process_new_ip` of Ips.Tasks answers it with the messages for the lookup
-- (Whois), the classification (Iran) and the location (Geo). A state goes in and comes out of each
-- operation; tasks also carry the cache that holds the locks. An operation of the source that raises
-- is `raise`, and returns no state: what was written before an exception is not modelled.
--
-- Parameters, for code that is not in the repository: the remote host (`Host`), `datetime.strptime` and
-- `float` (`Conversions`), the containment of PostgreSQL (`Contains`), the cipher (`Fernet`), the WHOIS
-- binary (`Binary`), the GeoIP database (`City`), the body that the RIPE URL answers, the parsing of a
-- date or a URL, the comparisons and the order of the database's collation, the float arithmetic that
-- rounds a coordinate to a cell of the map (`snap`), the length of a queue that the broker answers
-- (`Llen`), the table of the results of tasks, the order of addresses in an export (`address_before`), and
-- two tests of the database's columns for addresses, which are fields of `Db`: whether a column gives a
-- text back as it was written (`keeps`), and whether the column of the audit log takes one (`takes`). The
-- remote host may raise when the state or the bytes of a log are read.
--
-- Choices: texts are lists of code points. Times are microseconds since the year 1. A float is kept as
-- its bits. The time zone is UTC. A set or dict is a list in the order of insertion. The first of several
-- rows with the longest prefix is taken. `isdigit` and `int` know the digits of Unicode 15.1. The loops
-- are structural, but for `summarize_from`, whose fuel is the number of addresses left, of which each
-- round takes one at least; `str` of a number, whose fuel is above its number of digits; and the two bit
-- counts, whose fuel is the width of an address.
--
-- The relation `Change` of System takes each operation as one step, as a transaction does; an address is
-- classified from its row as it is then. Its step `elsewhere` is anything that leaves the addresses, the
-- history and the next key as they are, such as the pages and the forms.
--
-- What a column refuses is modelled for the events of a log (`check_events`), the texts of a query
-- (`query_text`) and the addresses of the audit log.
--
-- Not modelled: created_at and updated_at, the bounds of the other integer columns, the admin pages,
-- migrations, settings, serializers, templates, pagination, and what `csv` and `json` write.
pub mod Prelude
pub mod Errors
pub mod Query
pub mod Python
pub mod Models
pub mod Common
pub mod Servers
pub mod Ips
pub mod Incidents
pub mod Iran
pub mod Logs
pub mod Whois
pub mod Geo
pub mod Tests
pub mod Users
pub mod Dashboard
pub mod Config
pub mod Api
pub mod System
