-- ===== src/Lib.antt =====
-- Service of Import: a model of the Python code under app/ and alembic/, which takes CSV reports of
-- stocks, checks them, and applies each as one transaction to the stocks of warehouses and products.
--
-- The parts and how they interact. An upload goes to the object storage in parts and is registered as
-- a pending report, or its object is deleted again (Storage, Registration). A worker that holds an
-- advisory lock claims the oldest open report (Processing), reads its object as a stream of text,
-- splits it into logical CSV records, checks each record and hands valid rows and issues to a batch
-- writer (Csv, Validation), and leaves the report processing with its rows staged, or failed with its
-- errors. The next cycle finds the validation complete and applies the report: four SQL statements and
-- the completion of the report in one transaction (Stocks, Apply). Reports, stocks, warehouses and
-- products are listed in pages (Paging, Registration.Listing, ReadApi).
--
-- The files:
--   Prelude      names of the libraries, Boolean tests, lists and texts by native numbers
--   Errors       app/errors.py and the exceptions of the services, as constructors of Exn, and in
--                Responses what a client is told of them
--   Csv          app/services/csv_validation.py: Issue (its data), RawData (_bounded_raw_data),
--                Header (_validate_header), Quantity (str.strip, the pattern and int), Row
--                (_validate_row), Records (_iter_logical_records), Reader (the csv reader of Python),
--                Parse (_parse_record), Stream (validate_csv_stream), ChunkReader (ChunkIteratorIO)
--   Database     app/models.py: the tables as lists of rows
--   Stocks       app/services/apply_report.py: the SQL statements, each a function on the tables, and
--                classify_stock_change
--   Apply        app/services/apply_report.py: ApplyReportService.apply
--   Effects      code with a state that may raise, which keeps what it did before
--   S3           what the storage calls: a source, the client of boto3 and its laws; S3.Memory has both
--                in memory
--   Storage      app/services/storage.py: S3ObjectStorage; Contract has the protocol ObjectStorage with
--                its laws, and Implements shows that S3ObjectStorage keeps them
--   Registration app/services/reports.py: ReportService; Filename has normalize_original_filename, and
--                Listing list_reports
--   Config       app/config.py: the settings that are bounded, and the limits of the validation
--   Worker       app/worker.py: the shutdown handler, the loop and its cycle
--   Migrations   alembic/versions: the revisions on schemas; Operations has what they call
--   Paging       ORDER BY, LIMIT and OFFSET, and a client that reads page after page; Order has what
--                ORDER BY promises, and Sorting a sort that keeps it
--   ReadApi      app/services/read_api.py: ReadApiService
--   Steps        transactions and checks of the lock, any of which may fail
--   Validation   app/services/report_processing.py: ValidationBatchWriter and ReportValidator
--   Processing   app/services/report_processing.py: ReportProcessor and process_next_report
--
-- State and operations. A function of the source that only computes is a function. The callbacks of
-- validate_csv_stream are the events of a Run, in order, with what it returns or raises. The local
-- variables of _iter_logical_records are the fields of Splitter, and each branch of its loop is a
-- function on them. `apply` takes the tables to a result and the tables after it, with the rollback of
-- an exception written out. The rest of the worker is in the monad Step: it counts its calls to the
-- outside, each of which may raise, and keeps the transactions committed before an exception.
--
-- Numbers and bounds. Texts are lists of code points. Python's integers are natural numbers, or the
-- integers of Csv.Quantity where a sign can stand. POSTGRES_BIGINT_MAX is 2 ^ 63 - 1, and int refuses
-- more than 4300 digits, as Python does by default. str(n) is computed on fuel n for n > 0, which is
-- enough since a number has at most as many digits as its value. Instants are numbers.
--
-- An upload's loop over parts runs on fuel max_bytes + 2, and the loop that fills a part on the size of
-- a part: each round adds a byte, and the total may not pass max_bytes. The loop of the worker runs on
-- fuel for its rounds, of which it needs one more than it runs cycles. SHA-256 is a parameter.
--
-- SQL has the semantics that PostgreSQL documents, on lists whose order carries no meaning: DISTINCT
-- ON takes the row with the largest line_number of each key, ON CONFLICT DO UPDATE takes a value of
-- the identity sequence for each proposed row and refuses to change a row twice in one command. A
-- rollback also gives back the values of the sequences here, which PostgreSQL does not: ids are only
-- compared. ORDER BY is a parameter Sort, which may order tied rows anew in each call. The reader of
-- Python's csv module is its state machine for the default dialect in strict mode.
--
-- Not modelled: the decoding of UTF-8, for which the text chunks and a failing read stand; other
-- transactions that run at the same time, and a commit that goes through although its call raises;
-- logging and durations; the settings without bounds, and those of the storage client; the ids and
-- times of the rows of report_errors, and list_errors, which orders by these ids; what PostgreSQL
-- refuses of a text, U+0000, which is one of the faults that any statement may end in; the
-- registration of the signal handlers and the waits of the worker; how Alembic finds and runs the
-- revisions; the HTTP layer, which calls FastAPI and pydantic.
pub mod Apply
pub mod Config
pub mod Csv
pub mod Database
pub mod Effects
pub mod Errors
pub mod Migrations
pub mod Paging
pub mod Prelude
pub mod Processing
pub mod ReadApi
pub mod Registration
pub mod S3
pub mod Steps
pub mod Stocks
pub mod Storage
pub mod Validation
pub mod Worker
