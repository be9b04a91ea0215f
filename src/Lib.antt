-- ===== src/Lib.antt =====
-- Verification of the publishing core of the VeriSure advertising backend.
--
-- The program keeps campaigns of tenants, stores the tenants' credentials for advertising
-- platforms, and publishes a campaign to every supported platform, either in a request or by a
-- worker that takes jobs from a queue in the database. Users reach it over HTTP.
--
-- Parts, and where they are modelled (paths from the repository's root):
--   Models         app/models, app/core/providers.py, app/core/provider_credentials.py: rows as
--                  records, enumerations as data types
--   Exceptions     app/core/exceptions.py: a class and the text that `str` gives
--   Sanitization   app/core/provider_error_sanitization.py
--   Session        the SQLAlchemy session as the services use it: `saved` is the committed
--                  database, `current` what the transaction sees; an Action returns a value or
--                  raises, and hands on the session; begin_nested is a savepoint
--   Campaigns      app/repositories/campaign_repository.py, app/services/campaign_service.py
--   Deployments    app/repositories/campaign_deployment_repository.py,
--                  app/services/campaign_deployment_service.py
--   Connections    app/repositories/provider_connection_repository.py,
--                  app/services/provider_connection_service.py,
--                  app/core/security/credential_encryption.py
--   Publish        app/core/campaign_spec.py, app/services/campaign_spec_builder.py, app/adapters,
--                  app/services/publish_campaign_service.py
--   Jobs           app/repositories/publish_job_repository.py,
--                  app/services/publish_job_service.py, and in FailureFlag the context variable
--                  by which run_once tells the worker that it has logged a failure
--   Worker         app/orchestration/publish_worker.py: the loop around PublishJobService.run_once
--   Auth           app/repositories/refresh_token_repository.py, user_repository.py and
--                  tenant_repository.py beside it, app/services/auth_service.py,
--                  app/core/security/jwt.py (Jwt), and get_current_user of app/api/dependencies.py
--                  (Access)
--   Metrics        app/services/metrics_service.py
--   Api            app/core/exception_handlers.py (Responses), app/api/dependencies.py (Requests),
--                  the bodies and the endpoints of app/api/v1 (Schemas, Routes)
--   Configuration  app/core/settings.py, app/core/startup.py (Startup), app/main.py (Application)
--   Health         app/services/health_service.py, app/api/v1/health.py
--   Observability  app/core/logging_context.py, app/middleware/request_context.py (Middleware)
--   System         requests and passes of the worker over one database
--   Base           tables as lists of rows with SELECT, UPDATE, INSERT and ORDER BY, and texts
--   Tests          a small database and the theorems at it
-- In each part Repository holds the statements, Service the service, and the other modules are
-- named for what they prove. Functions, methods and fields keep their names; `_name` drops the
-- underscore.
--
-- How the parts interact: PublishJobService.run_once claims a job, runs
-- PublishCampaignService.publish_campaign with commit=False inside a savepoint, and marks the job.
-- publish_campaign finds or creates a deployment for each platform, builds a specification, asks
-- the connection service for credentials, calls the adapter, and records the outcome through
-- CampaignDeploymentService. Jobs.RunOnce takes the publish step as a parameter with the interface
-- IsUnitOfWork, which Publish.UnitOfWork fills. The worker runs run_once in a session of its own
-- at each pass of its loop, as Jobs.FailureFlag has it, with the context variable. An endpoint of Api.Routes first asks Auth.Access for the user of the
-- request, then checks its parameters, runs a service in the tenant of that user, and shows the
-- result by a schema; Api.Responses.serve runs an endpoint in a session of its own and answers.
--
-- How the code is modelled:
--   * Identifiers are numbers, and times are numbers of microseconds. What a call draws (a UUID,
--     the time of the clock) is an argument of it. Bytes are strings.
--   * `add` is taken together with the INSERT of the next flush, and an object that the code
--     refreshes is read again. Unique constraints and the partial unique index are the tests of
--     create; an IntegrityError carries the name of the constraint. Foreign keys are left out: the
--     code deletes no row. Of the widths of columns that of external_campaign_id is modelled, into
--     which a text of an adapter is written: its UPDATE raises where the text is too long. The
--     others are left out. The order of rows in a table is that of their INSERTs.
--   * `others` is what other transactions commit between a read and the write that rests on it,
--     at each such place of a call, seen by the next statement (READ COMMITTED). `locked` tells which rows other workers hold while a
--     job is claimed (SKIP LOCKED).
--   * The adapters, the registry, the encryption of credentials as the services are given it
--     (filled by Connections.Envelope, over its libraries), the hash of refresh tokens, the check
--     of passwords, PyJWT and the check of database URLs are arguments. A theorem that relies on
--     what one of them does says so in a hypothesis.
--   * The times that the database sets by itself and that no modelled code reads are left out:
--     updated_at of campaigns and deployments, created_at of connections. A body of a request is
--     taken after it is parsed; Api.Routes checks the constraints of its schema.
--   * Texts are lists of code points; lower and strip know the letters and the white space of
--     ASCII, and the header texts of the middleware are those of Latin-1. Decimals are finite, with
--     sign, digits and exponent.
--   * Loops are recursion on the list of providers or rows: there is no fuel. The endless loop of
--     the worker is its first passes, for any list of them.
--
-- Not modelled: outages of the database and errors of the claim statement; the log records other
-- than the access log, and their formatters; the cipher, hash, password and signing
-- libraries; the parsing of requests by the web framework; migrations.
pub mod Base
pub mod Tests
pub mod Models
pub mod Exceptions
pub mod Sanitization
pub mod Session
pub mod Campaigns
pub mod Deployments
pub mod Connections
pub mod Publish
pub mod Jobs
pub mod Auth
pub mod Worker
pub mod Metrics
pub mod Configuration
pub mod Api
pub mod Observability
pub mod System
pub mod Health
