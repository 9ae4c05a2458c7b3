-- ===== src/Lib.antt =====
-- ccreport collects a person's receipts from connected mailboxes month by month: a message is
-- browsed, selected for a report, justified, and on submission turned into stored files. This
-- library models the parts of src/ccreport that decide what happens, as functions on explicit state,
-- and proves what each part promises.
--
-- The parts, and the files that model them:
-- * months (src/ccreport/period.py): Period. Years and months are native numbers; `datetime` values are
--   seconds on a calendar of days. `parse_period` and `format_period` are the functions of that name,
--   `clamp_period` keeps a request inside the window of months that settings allow.
-- * the header cache (src/ccreport/cache.py): Cache, over OrderedDict, which models Python's class of
--   that name as a list of entries, the oldest first. The clock is an argument; the lock and the
--   making of the process-wide instance are left out.
-- * who is let in (src/ccreport/auth/allowlist.py): Access; Access.Seeding reconciles the list with the
--   settings. The table of grants is an association list by upn, users likewise.
-- * the caller's identity (src/ccreport/auth/principal.py): Principal. Base64 and JSON decoding is an
--   argument that gives the document.
-- * the audit log (`audit` of the same file): Audit. Time, id and free-form detail are left out.
-- * connected mailboxes (src/ccreport/accounts.py): Accounts. `World` there has the rows of mailboxes
--   and credentials, the access tokens in memory and the header cache;
--   Accounts.Connecting connects one, Accounts.Connect renews tokens and opens a mailbox,
--   Accounts.Verify checks one.
-- * authorization of a mailbox (src/ccreport/oauth.py): Oauth reads the answers of a token endpoint,
--   Oauth.Clients are the two clients. The exchange and the decoding of JSON and base64 are fields of
--   `Exchange`.
-- * which messages are receipts (src/ccreport/filters.py): Filters, over Regex, a model of Python's
--   regular expressions; Filters.Amounts and Filters.Numbers find amounts, Filters.Vendors and
--   Filters.Senders name the vendor, Filters.Words has the words that are searched.
-- * browsing a month (src/ccreport/browse.py): Browse, over Cache and Filters; `Caches` there has the
--   cache that the caller hands in and that of the process.
-- * reports (src/ccreport/reports.py, rows of src/ccreport/models.py): Reports.Model has the rows and
--   `World`, what one database session and the artifact store hold; Reports.Lifecycle selects,
--   justifies and removes items; Reports.Submission turns a draft into stored artifacts;
--   Reports.Registry finds, creates and lists reports of all users. The other
--   modules of Reports hold proofs, named for what they are about.
-- * the file an administrator receives (src/ccreport/bundle.py): Bundle reads the stored artifacts and
--   names the entries, Bundle.Manifest and Bundle.Summary write the documents, Bundle.Export assembles
--   and exports them. Hashing, JSON, HTML and zip packing are arguments. The reader of comma-separated
--   text in Bundle.Summary is no code of the repository: it says what reading back means.
-- * what a mailbox connector offers (src/ccreport/connectors/base.py): Connectors.
-- * names of stored files (src/ccreport/storage.py): Storage; conversion of attachments
--   (`normalize_attachment` of src/ccreport/render.py): Render.
-- * exceptions (src/ccreport/errors.py and the classes that extend it): Errors. A call that may raise
--   returns a `Result`; one that may raise after it changed something returns the state as well.
-- Prelude has what they share: tests on numbers, lists, integers, and texts as lists of code points.
--
-- A submission asks other programs: the mailbox, the artifact store, Pillow, WeasyPrint. They are the
-- fields of `Services` and of `MailConnector`, any functions, and may raise at every call.
--
-- Loops are structural recursion. The window of months is walked down by a counter that starts at the
-- window's length, and decimal printing by a number that is at least as large as its argument. The
-- search for an unused name in a bundle has a turn for each name that is taken, and is shown to end
-- within them. A repetition in a regular expression has a turn for each character that is left, and
-- every turn must consume one.
--
-- Not modelled: the text of messages in exceptions and logs; upper case, digits and word characters
-- beyond ASCII, and normal forms (NFKD is an argument); the SQL engine and its transactions;
-- signing of the authorization's state, encryption, HTTP and IMAP clients, HTML and PDF rendering, the
-- web application and the command line.
pub mod Prelude
pub mod Errors
pub mod Period
pub mod OrderedDict
pub mod Audit
pub mod Access
pub mod Cache
pub mod Connectors
pub mod Reports
pub mod Storage
pub mod Render
pub mod Principal
pub mod Accounts
pub mod Oauth
pub mod Bundle
pub mod Regex
pub mod Filters
pub mod Browse
